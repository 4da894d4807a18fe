-- ===== src/Lib.antt =====
-- Verification of the RTBus runtime: the event bus of zephyr/modules/rtbus.
--
-- The parts, from the bottom up, and the file of each:
-- - Base.antt and Base/: the numbers, lists and tests that all parts use. Base/Word.antt has the
--   8-bit and 32-bit arithmetic with its wrap-around, Base/Rc.antt the return codes.
-- - Pool.antt: zephyr/modules/rtbus/lib/bmalloc.c. `Pool` is one slot of the four arrays with the
--   memory behind it; `init_mem_pool`, `bmalloc` and `bfree` are the C functions, and `search` and
--   `free_from` their loops. Pool/Tiles.antt has the view that the proofs use: the list of blocks
--   that tile the pool.
-- - LinkList.antt: zephyr/modules/rtbus/lib/linklist.c, `linklist_new`, `linklist_remove`,
--   `linklist_reidx`, `linklist_count` and `linklist_get`, over a store of `next` pointers beside the
--   pool. LinkList/Chain.antt has the view: the list of addresses that a head leads to.
-- - Entries.antt: the task tables. Entries/Table.antt is zephyr/modules/rtbus/src/rtbus_entries.c and
--   Entries/Section.antt is rtbus_iterable.c; `Registry` is the interface of both that the bus uses.
-- - Emos.antt: zephyr/modules/rtbus/src/emos.c, with `emos_init`, `emos_post` and `emos_process`.
--   Emos/Queues.antt has the view: one queue of contexts for each priority (`IsBus`).
-- - Delay.antt: zephyr/modules/rtbus/src/rtbus.c, the public functions and the delayed events.
--   `rtbus_process` moves the due events into the core and then calls `emos_process`.
-- - Ymodem.antt: zephyr/modules/rtbus/services/rtbus_ymodem.c, the packet checks and the loop of
--   `rtbus_ymodem_recv`; `turn` is one round of the loop, and `receive` the rounds of a transfer.
-- - Sender.antt: system/ymodem_upload.c, the sender on the other side of the line: `send_packet`,
--   `wait_byte` and `send_ymodem`. Sender/Script.antt has the transfer as the receiver sees it, and
--   Sender/Received.antt what the receiver does with it; Sender/Stored.antt joins that to the image store.
--   The store enters by its laws (`IsKeeper`).
-- - HeaderTool.antt: system/header.c, the tool that makes an image: `build_header`, `crc32_update`,
--   `validate_symbols` and the file that `write_component_file` writes. HeaderTool/Built.antt holds the
--   bytes against what the image store reads, and HeaderTool/Component.antt joins that to the symbols. HeaderTool/Hex.antt has the records of
--   `write_component_ihex`, and HeaderTool/HexRead.antt a reader of them.
-- - Image.antt: zephyr/modules/rtbus/services/rtbus_image.c, the checks on an image and what is read
--   from the slot; Image/Header.antt is its header, and Image/Store.antt the store that receives an
--   image, `store_begin`, `store_write` and `store_finish`. Image/Flash.antt says what the flash map
--   promises (`IsDriver`), Image/Session.antt what an open store holds (`IsOpen`), and
--   Image/Upload.antt joins the store to the YMODEM receiver, which calls it.
-- - Serial.antt: zephyr/runtime/src/services/rtbus_serial.c, the receive ring of a port and the
--   router that takes lines for the command line out of what port 0 receives. Serial/Ports.antt has the
--   ports: `configure`, `begin`, `start`, `read` and `write`. Serial/Queue.antt has the view of a ring:
--   the queue of the bytes that it holds (`contents`); Serial/Steps.antt has the operations as steps.
-- - Cli.antt: zephyr/modules/rtbus/services/rtbus_cli.c, the line editor `process_byte` and the dispatch
--   of a line to the handler of its command.
-- - Native.antt: zephyr/modules/rtbus/services/native_service/native_service.c, loading and starting
--   the native application, and the handoff of its memory for an upgrade. Native/Api.antt is api.c
--   beside it with the posts, the events and the delay; `process_async_posts` is the hook that the bus
--   calls, over `rtbus_post` of Delay.antt. Native/Pins.antt has the pins and the serial ports of the
--   application, over Serial/Ports.antt, and Native/Result.antt the results of its requests.
-- - Ble.antt: zephyr/runtime/src/services/rtbus_ble.c, the Bluetooth service. Ble/Register.antt lays out
--   the GATT services and registers them, Ble/Requests.antt has advertising, values, security and
--   connections, and Ble/Process.antt the handler of the task. Ble/Pending.antt has what is registered with the stack. Ble/Staged.antt has the layout that the attributes should have.
--
-- Sizes near 2^32, where rounding or adding a header wraps around in 32 bits, are excluded by the
-- theorems on the pool (requests more than 16 bytes below 2^32) and on posts (payloads whose node's
-- length does not wrap around); there `bmalloc_rounded` and `init_mem_pool` are not the code.
-- `IsDriver` says what a write that succeeds leaves on any flash, so the theorems on the image store
-- do not show that an area was erased before it is written. The buffers on the stack of
-- rtbus_image.c have no size in the model of the commit.
--
-- Memory is split by use: the block headers, the `next` pointers of the nodes, the contexts behind
-- them and the other bytes are maps from addresses, which agree with one memory as long as payloads
-- do not overlap; a `next` pointer takes 4 bytes, a block header 8, as on the 32-bit targets.
-- Loops over a pool or a list run on fuel, one unit for each block or node: the length of the used
-- part of the pool and one more. A block is longer than its header, so there are fewer blocks and
-- fewer nodes than that. The theorems on lists take this as a hypothesis, which `length-nodes` of
-- Emos/Queues.antt discharges for the queues of the bus. The loops of the image store run on the
-- number of bytes that are left, since each round takes one byte at least. The loops over the message
-- queues run on one more round than there are messages, which is enough.
--
-- What is not under the repository's control is a parameter: the posts that the function of a task
-- makes (`handler`), the hook for posts from other threads, the clock, `strtoul` and `%lu`, the
-- serial line of the sender, the flash map of Zephyr (`Driver`) and its CRC-32, the drivers of the
-- serial ports and of the pins, the message queues of the kernel (`Msgq`, with the law `IsFifo`), and the
-- Bluetooth stack (`Stack`). The image store is
-- an interface of the YMODEM receiver (`ImageStore`), with the laws that the receiver rests on
-- (`IsStore`, `IsImageStore`); the image service and the sizes of the board are parameters of the
-- loader. Tasks that start the bus again, or call `rtbus_process`, while they run are not
-- modelled. The bus is used from one thread, as the notes in bmalloc.c ask.
-- Not modelled: the callbacks of the drivers and of the Bluetooth stack, what other threads do while a
-- queue is drained, the runtime thread, diagnostics and start-up of zephyr/modules/rtbus/services and
-- zephyr/runtime (calls into Zephyr), the table of the API in abi.c, the input queue and the handlers of
-- the command line, the file handling of the host tools and what the sender does
-- before and after the transfer, the Arduino cores, and all build files.
pub mod Base
pub mod Ble
pub mod Pool
pub mod LinkList
pub mod Entries
pub mod Emos
pub mod Delay
pub mod Ymodem
pub mod Sender
pub mod HeaderTool
pub mod Serial
pub mod Cli
pub mod Native
pub mod Image
