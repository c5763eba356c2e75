-- ===== src/Lib.antt =====
-- Verification of the image coding system of this repository: a slave board that receives pictures
-- over a serial line, encodes them with an accelerator and sends the bit streams back, the master
-- that drives it, and the kernel driver of the accelerator.
--
-- The parts, and the files that model them (paths from the repository's root, APP for
-- project-spec/meta-user/recipes-apps/autostart/src and DRV for
-- project-spec/meta-user/recipes-modules/axi-tangxi):
--   Crc: the checksum, APP/crc.c. Crc/Division is its independent description.
--   Protocol/Words, Control, Data: integers in memory, frame_t and data_frame_t, and the functions of
--     APP/transmission_protocol.c that write, send and receive them.
--   Protocol/Receive: receive_data_frames of that file, its read loop and its check of each frame.
--   Protocol/Slices: the functions of that file that cut data into frames and join them.
--   Protocol/Gmm: entropy_to_gmm of that file. Protocol/Files: its get_data_frames.
--   Slave: APP/main.c. Slave/State holds its globals and get_status, Slave/Process its data path,
--     Slave/Commands the loop of main with the commands QUERY, SEND and RECV. Slave/Encode: the
--     entropy coding of the accelerator's results. Slave/Files: the loop of main over picture files.
--     Slave/Network: how the data path uses the driver and the entropy coder.
--   Master: send_and_receive_frame and query_status of APP/master.c. Master/Pictures: how its main sends
--     one picture and receives one bit stream, and dump_data_frames. Master/Files: its two loops over
--     the files, the numbers that it notes for them, and the paths to which it saves.
--   Driver/Registers, Driver/Bursts: the register writes and the loops over bursts of
--     DRV/axi_tangxi.c. Driver/Memory: the list of mapped memory of DRV/axitangxi_dev.c.
--     Driver/Requests: init_trans of APP/axitangxi.c and the two transfers of DRV/axi_tangxi.c.
--     Driver/Interrupts: irq_handler of DRV/axitangxi_dev.c and the waits of DRV/axi_tangxi.c.
--     Driver/Lifecycle: axitangxi_probe of DRV/axi_tangxi_platform.c, and what chrdev_init and
--     chrdev_exit of DRV/axitangxi_dev.c acquire and give back. Driver/Files: its open and release.
--     Driver/Device: axitangxi_ioctl, and pl_run and pl_get of APP/axitangxi.c on top of it.
--     Driver/Access: pl_io, ps_read_file, pl_config and pl_init of APP/axitangxi.c.
--   Board: hw/src/axi_tangxi.c, a driver without a kernel. Board/Flags: when its interrupt handler takes a
--     copy for done. Board/Copies: its copies of whole bursts. Board/Loopback: its loopback through the
--     chip. Board/Iwave: the accelerator's registers.
--   Utils: the help text, directories and dumps of APP/utils.c. Utils/Options: what the command lines of
--     APP/main.c and APP/master.c have in common; Slave/Options and Master/Options: each of them.
--   Coder: the arithmetic encoder of APP/arithmetic_coding.cpp.
--     Coder/Interval is an independent description of arithmetic coding by fractions.
--     Coder/Table: softmax and EncTable of that file, which give a value its share of the frequencies.
--     Coder/Codings: codings of APP/coding.cpp, with the memory that it fills.
-- Common holds the shared names and lemmas: bits and masks of numbers, signed integers, lists, and the ways in which a
-- C function ends.
--
-- The slave waits for a frame of the master, serves it and waits again. A command reads and writes
-- the two tables of eight pictures; SEND calls receive_data_frames and, when no frame is missing,
-- the data path; RECV cuts the bit stream into data frames. The master repeats a request until an
-- answer matches it. The data path hands pictures to the driver, which cuts them into bursts.
--
-- How the code is modelled. A record stands for each struct, with the source's field names (the field
-- `data` is `payload`), and the natural numbers for the integers, with their wrap-around written out.
-- A function takes the memory it changes as an argument and returns it. `Call` is how a function
-- ends: it returns, ends the process through err(3), or is undefined behaviour, as an access out of
-- bounds is. What epoll_wait, read, write, malloc and the kernel's allocators answer is an argument of
-- each call, and so is what malloc's memory holds. Bytes that a call writes are part of its result.
-- The host is little-endian.
--
-- Fuel. The read loop of receive_data_frames runs on fuel: ten rounds for each byte wanted and ten
-- more are enough, since a round without a byte counts as one of ten attempts. A loop over bursts runs
-- on fuel above the size of the transfer, since each round takes at least one byte. Every other loop
-- is structural, but for the one of entropy_to_gmm, which runs on fuel above its length.
--
-- Each loop of the arithmetic encoder's update runs on fuel 33: a round doubles the distance of the
-- bounds, which are 32-bit numbers.
--
-- Not modelled: the accelerator: what it makes of a picture is an argument of Slave/Network, and
-- with the entropy coder it is the parameter `encode` of Slave/Process; the contents of the coder's
-- two table files, which are a parameter of Coder/Table; logs, terminal and epoll set-up and pauses, which
-- are input and output; getopt_long, wordexp and strtol, whose results are arguments; the program
-- hw/src/main.c, which has no input.
pub mod Board
pub mod Common
pub mod Crc
pub mod Protocol
pub mod Slave
pub mod Master
pub mod Coder
pub mod Driver
pub mod Utils
