-- ===== src/Lib.antt =====
-- Verification of the FIX and AHD test framework.
--
-- The program is a set of test tools for order entry: a FIX server for tests
-- (fix_poc/fix_server_asyncio.py), a FIX client (common/fix_cli.py), message objects
-- (common/fix_msg.py), a client of an exchange that speaks packets of fixed width (common/ahd_cli.py,
-- common/ahd_msg.py), and the orders and checkers with which a test says what it expects
-- (common/test_utils.py, common/fix_utils.py). The server reads bytes, cuts them into frames, decodes a
-- frame into a dict of tags, and answers with dicts that it encodes. A checker calls a method of an order
-- for each event, and the order keeps quantities, a status and a history of modifications; the FIX checker receives a report
-- first and compares it with the order. The client of the exchange numbers the packets that it sends,
-- and its receiving thread cuts the stream into packets by the length in their headers.
--
-- Base, Py: shared helpers, and the parts of Python that the program uses. `Py.Exceptions.Result` is a
--   call that may raise; `Py.State.Action` is a method of a mutable object, where what was written
--   before an exception stays. Texts and bytes are lists of code points. A dict is its list of items in
--   insertion order. Integers are `Base.Int.ℤ`.
-- Codec: `FixCodec.dict_to_fix` and `fix_to_dict`. `popped` is the effect on the caller's dict.
-- Frames: `FixCodec.extract_messages`, as a loop on fuel. Each round removes a byte at least, so the
--   length of the buffer plus one is enough; `receive` is the read loop around it.
-- Server: `FixSession` and `FixServer`. `Conn` holds the session and the messages that were sent; one
--   function for each reply; `handle_message`, `client_loop` and `handle_client` are composed as in the
--   source. The clock and `uuid4` are the argument `draws`, a value for each message that is handled.
-- Orders: `Order` and the callbacks of `GenericChecker`. Attributes and keyword arguments hold a `Value`:
--   None, a Boolean, an integer, a floating point number or a text. Floating point arithmetic is the
--   argument `Floats`, of which nothing is assumed. `Handlers` has a function for each of `_new_order` to
--   `_bust`; `Events.run` is a sequence of calls, up to the first that raises. The attributes of a
--   restored snapshot are visited in the order of the two dicts, where the source visits a set. The
--   constructor is `State.construct`; `State.make_order` is the order that it makes of keywords that are
--   fields of the dataclass, where it is given no history.
-- Messages: the enumerations of common/fix_msg.py, `FixMessage` with `to_fix_string` and
--   `parse_fix_string`, the subclasses with their setters, and `FixMessageFactory`. The fields are a dict
--   with integers as keys.
-- Padded: the padded fields of common/scapy_utils.py, as functions from a value to the bytes of fixed
--   width and back.
-- Client: `FixClient` of common/fix_cli.py: what it queues for sending, with its sequence numbers, and
--   in `Client.Receive` its receiving thread, the handlers that it registers and `disconnect`. The clock is
--   an argument. The inner loop runs on fuel; the length of the buffer plus one is enough. The texts are
--   those that the received bytes decode to; that decoding fails is not modelled.
-- FixChecker: `FIXClientChecker` of common/fix_utils.py on one order. `FixChecker` has the validation and
--   the expected fields, `Steps` the methods, with the dummy client that the class makes for itself. The
--   text of a floating point number and the symbol of a security are arguments.
-- Ahd: common/ahd_msg.py. `OrderCodes`, `MessageCodes` and `Enums` have the enumerations with `WENUMS` and
--   `RENUMS`; `Fields` and `Packets` each packet class with its fields in order, their widths and defaults,
--   and the bindings of layers; `PostBuild` the methods `post_build`; `Calendar` and `Price` the fields of
--   dates, times and prices. A year is written with four digits; `strptime` is modelled on texts of the
--   width of the field. Floats are an argument, and a theorem names what it needs of them.
-- AhdClient: `AHDClient` of common/ahd_cli.py. `Internal` has the identifiers of orders, `Prepare`
--   the function `_prepare_msg` step by step, `Receive` the receiving thread over a list of arrivals, and
--   `Session` login, start, operation start and logout over the queue of received packets. scapy builds and
--   dissects packets, and is an argument: `to_bytes` and `dissect`. A packet is a list of its layers, with
--   the fields that the client reads or writes. The virtual server number is a text, which the packets
--   need. The receiving thread runs on fuel; a round for each arrival and each packet, and one more, is
--   enough. The only handler is the one that the client has of itself.
--   `_prepare_msg` names three lists of layers that no module binds, so `prepare_msg` raises NameError as
--   every call of the source does; `complete_msg` is the part of it behind the loop over these lists.
-- Examples: concrete messages, connections and orders.
--
-- Not modelled: logging, sockets and the event loop, the command line, `fill_repeat_ticks`, the texts of
-- `__str__` and `__repr__`, the start and stop of threads and the sending threads of both clients,
-- handlers that a caller registers, the second client of common/fix_cli.py, the AHD checker
-- (common/ahd_utils.py), the drivers of load tests (fix_poc/stress_fix_asyncio.py and
-- fix_poc/stress_fix_multithread.py), and the matchers, which wrap a package.
pub mod Base
pub mod Py
pub mod Codec
pub mod Frames
pub mod Server
pub mod Orders
pub mod Messages
pub mod Padded
pub mod Ahd
pub mod Client
pub mod Examples
pub mod AhdClient
pub mod FixChecker
