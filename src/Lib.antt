-- ===== src/Lib.antt =====
-- The SPI flash programmer: firmware that reads, writes and erases SPI flash chips for a host that
-- asks for it over USB.
--
-- The firmware has two chips on an internal bus and a connector for a target. The host's control
-- requests (common/include/usbProtocol.hxx) arrive at `handleCtrlRequest` of
-- firmware/usb/flashProto.cxx. Some are answered at once. The others set up a data stage, whose
-- callback starts a transfer: the packets of the bulk endpoints then read or write the chip
-- through firmware/spi.cxx, and the tick of each USB frame erases a page. Sizes and speeds come
-- from the tables of firmware/flash.cxx, or from the chip by firmware/sfdp.cxx.
--
-- Protocol models common/include/usbProtocol.hxx: the numbers of the messages, page numbers in
-- three bytes (Page) and the replies as bytes (Layout). Transport has the request types of
-- software/include/usbDevice.hxx. Machine is the firmware's state: its globals as a record, with
-- every effect on the hardware as an event of a log; Action has the monad of operations, in which
-- a null dereference or an index out of range is `fault`; Keeps has invariants of operations. Spi
-- models firmware/spi.cxx: `spi_select`, `ident_device` and the others keep the names of the
-- source. Spi/Select, Spi/Transaction and Spi/Stream read the log back as the chips see it. Sfdp
-- models firmware/sfdp.cxx and firmware/sfdp.hxx, Flash models firmware/flash.cxx, and Proto models
-- firmware/usb/flashProto.cxx: Common, Read, Write, Erase, Target and Control, each with the
-- theorems of its part below it. Safety follows the chip selects through every operation.
-- Host models the host's half: the requests as control transfers (Requests), how the firmware takes
-- them (Understood), software/options.hxx (Options) and software/utils/units.hxx (Units). Session
-- has the calls of libusb and of files, from software/include/usbDevice.hxx, as actions over a
-- history of events. Chips, Erasing, Reading and Writing model software/flashprog.cxx: `readDevice`
-- is `read_device`, and so on, and the parts that its functions share in the same words are
-- functions of their own, as `give_up` for the release with exit codes 1 and 2. Sfdp models
-- software/sfdp.cxx, Program is `main`, and Progress has the arithmetic of software/progress.cxx, with
-- the displayed line in Progress/Line and Progress/Elapsed. Options/Actions has the tables of
-- software/options.hxx. Handles is `main` again, as the owner of libusb's objects:
-- software/include/usbContext.hxx, software/include/usbDeviceList.hxx and the `usbDevice_t` of
-- software/include/usbDevice.hxx, by a log of the calls, which Handles/Owned reads by the rules of
-- libusb's documentation.
-- Balance, Granted and Released follow the claimed interface, Returns and Answers compose runs that
-- do not fail, Memory has what a history leaves on a chip, and Copies, Dumped, Erased, Written,
-- Programmed, Flashed, WriteBack, Listed and Opcodes have the theorems of the operations. EndToEnd
-- puts a request of the host and the firmware together.
-- Targeted and Memory have what a chip takes from the requests of a history, and Replies what the host
-- reads out of the firmware's replies.
-- Sfdp/Fields has the theorems of the SFDP structures, and Sfdp/Described those of the search for a
-- chip's table, against what JESD216 says in Sfdp/Standard. Proto/Read/Tables, Proto/Write/Verified and Proto/Control/TablesRequest have those of
-- the SFDP reads and of the verification, Proto/Write/Pages those of writes over several pages, and
-- Proto/Paged those of reads of a chip with a page buffer, which Spi/Buffer follows on the bus.
-- Firmware models what is around the handlers:
-- firmware/startup.cxx (Startup, the memory in Startup/Image, the vector table in Startup/Vectors) and
-- firmware/usb/descriptors.cxx (Descriptors, with the rules that a host goes by in
-- Descriptors/WellFormed, and the registration in Descriptors/Registered).
-- Examples has test data, and the theorems at concrete inputs.
--
-- Names that occur in several places of the source are told apart by their module: the global
-- `targetDevice` of firmware/spi.cxx is `selected`, that of firmware/usb/flashProto.cxx is
-- `target_device`. Numbers are natural numbers with the wrap of the source's width written out.
--
-- The chips, the USB core and the compiler are parameters, in the record `Env` of Machine/Action:
-- `reply` is what comes back in a transfer, any function of the log. Where a theorem needs a chip
-- that works, it has a hypothesis from the data sheets, on the bytes since the chip was selected.
-- A loop that waits for a chip polls at most `polls` times and then stops as `spin`; the theorem
-- about writes needs one poll, since its chip is ready at once, and that about page buffers one more
-- than the chip reports busy. The loop over the bytes of a
-- transfer recurses on their number, and that over the parameter headers on the count in the SFDP
-- header, so neither needs fuel. The host's record `HostEnv` has the answers of libusb and of the
-- operating system, any functions of the history. Its loops over blocks, pages and headers recurse on
-- their counts; those that wait for an erase ask for the status at most `status_polls` times and
-- then end as `waiting`, and the theorem about erasing says how many are enough.
--
-- The start-up loops run at most as many rounds as their section has bytes, four times what they need.
-- Addresses and the words of the memory are natural numbers there.
--
-- Not modelled: the registers that set up ports, clocks and controllers (firmware/osc.cxx,
-- firmware/timer.cxx and parts of firmware/spi.cxx and firmware/led.cxx), which only the hardware
-- gives a meaning; the fault handlers of firmware/startup.cxx, which wait forever; the sizes, codes
-- and attributes of the descriptors' structures, which are the USB library's (the sizes are
-- parameters); the parser of the command line, a library's; copies of the standard library
-- (software/utils/span.hxx and software/utils/iterator.hxx); and what the host prints, but for the
-- values of the SFDP display and the progress bar, whose product of fractions and texts of numbers are
-- arguments. The library's conversion of decimal numbers is a parameter of the chip selection parser.
pub mod Prelude
pub mod Protocol
pub mod Machine
pub mod Spi
pub mod Sfdp
pub mod Flash
pub mod Proto
pub mod Safety
pub mod Host
pub mod Examples
pub mod Firmware
