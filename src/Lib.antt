-- ===== src/Lib.antt =====
-- mart-common: the parts of the library that carry state or decide something, as definitions that
-- compute, with the theorems that make them correct. One module stands for one part:
--
-- - Text: include/mart-common/StringView.h. A view is the list of its bytes. Text.Split has both
--   overloads of `split`, Text.Integral the number parsers `core`, `base`, `to_integral` and
--   `to_integral_unsafe`; an exception or a failed assertion is a value of the result type.
--   Text.Decimal has what `std::to_string` prints.
-- - Net: mart-netlib. Net.ByteOrder is `mbswap` and the conversions of
--   include/mart-netlib/basic_types.hpp on a little-endian machine, Net.Address the parser of
--   include/mart-netlib/detail/ip_detail.hpp, Net.AddressV4, Net.Port and Net.Endpoint the classes
--   of include/mart-netlib/ip.hpp and src/mart-netlib/ip.cpp, which use Text.
-- - Net, the port layer (src/mart-netlib/port_layer.cpp, the version for Linux): Net.Results has
--   ErrorCode and ReturnValue, Net.Enums the enumerations with the constants of Linux, Net.Native
--   the record `System` of the calls of the operating system, which are parameters, and laws of
--   them; Net.PortLayer has the functions on handles, Net.Timeouts those on durations, Net.Sockaddrs
--   and Net.AddressText the addresses and their texts, Net.AddrInfo the name lookup. Net.Simulated
--   is one system that has the laws, on which the examples run.
-- - Net, the sockets: Net.Socket is the handle of include/mart-netlib/RaiiSocket.hpp over a record
--   of the calls it makes, with the laws `IsSystem` of these; Net.Socket.System fills the record with
--   the port layer. Net.Transfer has its send and recv. Net.Throws has the exceptions, Net.HighLevel the class
--   HighLevelSocketBase, Net.Dgram the class DgramSocket (detail/socket_base.hpp and
--   detail/dgram_socket_base_impl.hpp) for any type of endpoints, Net.Udp the types of
--   include/mart-netlib/udp.hpp and unix.hpp, Net.Tcp the Socket and the Acceptor of
--   include/mart-netlib/tcp.hpp.
-- - Mt: Mt.TrippleBuffer (include/mart-common/mt/TrippleBuffer.h) and Mt.FastMutex
--   (include/mart-common/experimental/mt/FastMutex.h) are step relations, one access to shared
--   memory a step, any number of threads for the mutex; Mt.Channel
--   (include/mart-common/experimental/mt/Channel.h) takes one call under its mutex as a step.
-- - Containers: CircularBuffer (include/mart-common/experimental/circular_buffer.h), ArrayView
--   (include/mart-common/ArrayView.h, over a memory of elements), Link
--   (include/mart-common/experimental/link.h, over a heap of links and targets), StoragePool
--   (include/mart-common/experimental/StoragePool.h with RefCntPtr.h), DynArray
--   (include/mart-common/experimental/DynArray.h, over a heap of blocks) and DynLimArray
--   (include/mart-common/experimental/DynLimArray.h).
-- - Math: include/mart-common/MartVec.h over any element type, given by its operators. The laws of
--   a semiring or an order are hypotheses where a theorem needs them. Math.LinAlg is
--   include/mart-common/experimental/lin_alg/matrix.h.
-- - Time: include/mart-common/MartTime.h over a clock that is a parameter; Time.Timers has Timer and
--   BasicTimer, Time.Schedule the PeriodicScheduler.
-- - Log: include/mart-common/logging. Log.Levels is types.h, Log.Streams what is printed to,
--   Log.Format default_formatter.h, Log.Sinks ILogSink.h and Sinks.h, Log.Logger the class Logger
--   over a store of sinks that loggers share, with Log.Logger.Indent and Log.Logger.Default.
-- - Utils: include/mart-common/utils.h, `narrow` between any two integer types and `clamp`.
-- - Prelude: the names shared by all, lists and tests on the native numbers, shifts, families.
--
-- Integers of a fixed width are natural numbers with the wrap-around written out (`% 2 ^ w`); a
-- `size_t` has 64 bits, and an `int` or a duration, which the code does not let wrap, is an integer.
-- Loops over a text or an index are structural recursion. Two loops end by what the system answers:
-- `clearRxBuff` and `send` of a TCP socket take fuel, and a theorem says how much is enough.
-- `none` stands for a call that ends in std::terminate, in an exception that is not told apart, or
-- in a failed assertion, as the comment at each definition says; from Net.Throws on, an exception
-- and an abort are outcomes of their own. Atomic operations are sequentially consistent. In Link and
-- in `copy` of ArrayView the asserts are switched off, as in a release build; in Net they are on.
--
-- Not modelled: im_str, which is a library of its own copied into the repository, and what wraps
-- it (ConstString.h, exceptions.h); the wrappers of printf and of random numbers; the
-- version of the port layer for Windows; type lists, macros and the wrappers of standard
-- algorithms, which have no state; and floating-point functions of MartVec.h.
pub mod Prelude
pub mod Text
pub mod Net
pub mod Mt
pub mod Containers
pub mod Math
pub mod Time
pub mod Log
pub mod Utils
