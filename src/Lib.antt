-- ===== src/Lib.antt =====
-- A model of hound, a library in C that reads records of data from devices. A program asks for data by
-- a context; drivers produce records; the I/O layer puts each record, with one reference for each queue,
-- into the queues of the contexts that asked for it; the program reads its context's queue, and a record
-- is freed with its last reference.
--
-- The parts, and the files that model them:
--  * Base: lists with native indices, 64-bit unsigned arithmetic (add_size, sub_size, mul_size wrap at
--    2 ^ 64), and the fault monad, in which none is an access out of bounds, a use of freed memory or a
--    failed XASSERT.
--  * Err: the enumeration hound_err of include/hound/hound.h and error_strerror of src/core/error.c.
--  * Records: struct record_info and its count of references (include/hound-private/queue.h,
--    src/core/refcount.c and record_ref_dec of src/core/queue.c). The heap is a function from addresses
--    to the allocated objects; Records/Owned counts the holders of each.
--  * Queue: struct queue of src/core/queue.c as a record, with a function of the same name for each of
--    its operations; interrupt, len, front, front_seqno and max_len are the fields of the struct and
--    slots is the array data. Queue/Window and Queue/Valid give its contents as a list; Drain, Push, Pop,
--    Bytes and Resize stand for the operations, Queue/History for all runs of them and Queue/Wait for
--    the pop that blocks.
--  * Driver: src/core/driver.c. Driver/Calls is the interface of what it calls (vectors of xlib, the
--    operations of struct driver_ops, the I/O layer), Driver/Active the requests that a driver serves
--    and their counts, Driver/Refs its references, start and stop, Driver/Descs the look-ups.
--  * Ctx: src/core/ctx.c. Ctx/Requests checks requests, Ctx/Maps splits them by driver, Ctx/Life starts,
--    stops and frees a context and has the blocking read, Ctx/Read the reads that do not block.
--  * Io: src/core/io.c. Io/Calls is the interface of what it calls (read, the operations of a driver,
--    the vectors of xlib) with make_records; Io/Push the delivery of records to the queues; Io/Pull
--    io_default_pull, Io/Pull/Schedule its schedule in absolute times and Io/Pull/Rate all runs of it;
--    Io/Queues the entries and timeouts of a descriptor (add_queue_nolock, remove_queue_nolock,
--    set_fd_timeout); Io/Fds the descriptors of s_ios with io_add_fd and io_remove_fd; Io/Pause how the
--    loop is paused (io_wait_for_ready, pause_poll, resume_poll), with the holds of the mutex as steps;
--    Io/Poll the rounds of io_poll over the descriptors with their fdctx, and Io/Poll/Timers which of
--    them a round reads.
--  * Tests: concrete values, and the theorems at them.
--
-- Most functions hold the lock of the queue, driver or context from end to end, so each is one step of
-- the model. Where one waits (queue_pop_records), it takes the calls that other threads make meanwhile
-- as an argument. The reads of a context lock the queue only in each pop: what other threads do to the
-- queue and its records between two pops is an argument of ctx_read_nowait and ctx_read_bytes_nowait;
-- io_push_records takes the reads that other threads make between its pushes. The functions that change
-- s_ios are meant to run between pause_poll and resume_poll; Io/Pause has the steps of any number of
-- threads, which pause_poll does not keep apart. malloc, realloc and the vectors of xlib answer as
-- arguments of the functions say.
--
-- Bounds: queues hold fewer than 2 ^ 60 pointers, since an array of more does not fit the address space.
-- Fuel: pop_bytes makes at most one round for each entry, queue_pop_records two rounds, and the reads one
-- for each record or byte asked for and one more, since every round that another follows reads a record.
-- The loop of remove_queue_nolock over the entries makes one round for each entry, since its index moves
-- on in every round.
--
-- Not modelled: the start and the end of the poll thread; io_init and io_destroy, which only call the
-- system; fcntl in io_add_fd; the registration of drivers, ctx_alloc and ctx_modify; the parsers of
-- src/core/parse, which walk documents of a yaml library; and the drivers of src/driver, which do input
-- and output.
pub mod Base
pub mod Records
pub mod Err
pub mod Queue
pub mod Driver
pub mod Ctx
pub mod Io
mod Tests
