-- ===== src/Lib.antt =====
-- A model of the I2C driver and server for an ODROID board (seL4 Core Platform, sDDF).
--
-- The system is two programs that share memory. The server posts requests, each a byte buffer with
-- the client, the bus address and a list of tokens; the driver loads the tokens into the registers
-- of one of two I2C masters (bus 2 is M2, bus 3 is M3), and returns a buffer with the result when
-- the interrupt comes. Buffers travel on ring buffers: each bus has a pair of request rings and a
-- pair of return rings, and each pair has a ring of free buffers and one of used ones.
--
-- Prelude: tests, lists, words, and bit fields of a native number.
-- Ring (i2c/include/sw_shared_ringbuffer.h, i2c/sw_shared_ringbuffer.c): the ring buffers.
--   Ring/Queue is the abstract queue, Ring/Contents and Ring/Refine relate a ring to it, and
--   Ring/Handle does so for the pairs. Ring/Interleave has enqueue and dequeue as turns of two
--   programs, one access to the ring each.
-- Transport (i2c/i2c-transport.c, i2c/include/i2c-transport.h): allocReqBuf is alloc_req_buf, and
--   so on. Transport/Lens has the selection of a ring by the bus, Transport/Pool the initial
--   buffers, Transport/Calls the functions by the contents of the rings, Transport/Message the
--   bytes of a request in memory, Transport/Octets that memory holds bytes.
-- Token (i2c/include/i2c-token.h, and the switch of i2cLoadTokens): the tokens and their
--   translation.
-- Interface (i2cDump, i2cGetError, i2cStart, i2cHalt and i2cFlush of i2c/i2c-odroid-c4.c): the
--   registers of a master. Interface/Control is about the control register, Interface/Width about
--   the 32 bits of each.
-- Setup (setupi2c of i2c/i2c-odroid-c4.c, with i2c/include/gpio.h and i2c/include/clk.h). Setup/Pads
--   is about the pins, Setup/Masters about the registers of the masters.
-- Driver (the rest of i2c/i2c-odroid-c4.c): the handlers. Driver/Load is the loop of i2cLoadTokens;
--   its children relate the registers to the tokens loaded. Driver/Batch is about the whole
--   function and Driver/Sent about what the hardware is then to send, Driver/Address about the
--   address register, Driver/Invalid about unknown tokens, Driver/Printed about i2cDump, and
--   Driver/Width about the 32 bits of the registers.
-- Server (i2c/i2c.c, i2c/include/i2c.h): the handlers of the server.
-- System: both programs. Ledger and BusInv state who owns each buffer; Take, Work, Irq and Serve are
--   about the handlers, Complete about the end of a request, Answer about what an interrupt writes;
--   Steps has the steps of the system, Start its first state, and Width the bounds of its values.
--   Job, Served, Ended and Delivery follow one request through the driver, to its end with or
--   without an error, Session from the server and back. Line has the requests of a bus as a line:
--   Line/Bufs and Line/Waits say when they wait, Line/Post, Line/Turn and Line/Serve are about its
--   two ends, Line/Fate about the end of the first request, and Line/Run about any sequence of
--   operations on one bus, Line/Quiet about those without errors. Line/Whole, Line/Round and
--   Line/Program are about the handlers of both programs, which go through both buses, where the
--   server has posted to bus 2 only, as its test functions do; Line/Shares and Line/Init are about
--   the line at the start. Failed is about errors on the bus, Jammed about an address that is too
--   large and Starved about a missing return buffer. Machine has one bus as a machine whose events
--   come in any order, interrupts and reads of answers while requests are posted and served:
--   Machine/State says when a bus is in a state of it, Machine/Moves what other buffers and rings
--   keep, Machine/AtWork what stands where while a request is at work, Machine/Post,
--   Machine/Announce, Machine/Irq and Machine/Read are about its events, Machine/Run about sequences
--   of them, Machine/Account, Machine/Turns and Machine/Order about what becomes of each request,
--   and Machine/Start about the first state.
-- Tests: concrete states, and the theorems at them.
--
-- A handler is a function from a state to the next one; it gives none where it would go through a
-- NULL pointer. allocReqBuf gives its result as for a buffer that is not at NULL, and alloc_faults
-- says whether it is: then the system has no step and an event of a bus faults. Memory is a function
-- from addresses to bytes. Machine integers are native numbers with their wrap-around written out;
-- an `int` is its bit pattern. The loop of i2cLoadTokens has 16 rounds at most, as each round adds a
-- token and the loop stops at sixteen of them, so its fuel is 16; Driver/Load/Fuel is about this.
--
-- Not modelled: console output (and i2c/printf.c, a vendored library), memory fences, and the
-- hardware, whose registers may change in any way between two handlers but read as written within
-- one. In System a handler runs to its end before another one starts; only in Ring/Interleave are the
-- two programs interleaved within a call, and there each access takes effect at once and in the order
-- of its program. The fence of dequeue asks for that order; the one of enqueue stands behind the
-- increment of the write index, and does not. Test sketches and the build are left aside.
mod Prelude
pub mod Ring
pub mod Transport
pub mod Token
pub mod Interface
pub mod Setup
pub mod Driver
pub mod Server
pub mod System
mod Tests
