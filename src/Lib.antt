-- ===== src/Lib.antt =====
-- The kernel of mikansaos, a small operating system: models of its core components and theorems
-- about them. Numbers are native naturals; a w-bit integer is written with its wrap-around where a
-- value can reach it.
--
-- kernel/error.hpp: ErrorCode (codes, their names, the pair of a value and an error).
-- kernel/queue.hpp: Queue (`ArrayQueue`), Queue/Fifo (the bounded FIFO it stands for) and
--   Queue/Refine.
-- kernel/memory_manager.cpp, memory_manager.hpp, memory_map.hpp: Memory. `BitmapMemoryManager` is a
--   record of the lines of the bitmap and the range; each method is a function of the same name.
--   The outer loop of `Allocate` runs on fuel, the length of the range, which is enough since every
--   round moves the start up. Memory/Frames has the bits, Memory/Search the loops, Memory/Allocate
--   the outcomes, Memory/Stat the statistics, Memory/Init the firmware's memory map.
-- kernel/message.hpp: Message.
-- kernel/task.cpp, kernel/task.hpp: Task. A `Task*` is the task's id; the run queues are a function
--   from levels to lists of ids. An operation that ends in a context switch returns which one it
--   asks for. Task/Store has the list of tasks, Task/Rotate the rotation, Task/Queues and Task/Sleep
--   the agreement of queues and tasks, Task/Schedule and Task/Steps the whole invariant,
--   Task/History the histories of calls, Task/Messages, Task/Finish and Task/Relevel the rest.
-- kernel/fat.cpp, kernel/fat.hpp: Fat. Fat/Table is the cluster table: its entries are a list, a chain
--   is the list of its clusters (Fat/Table/Chains). Walks along a chain and searches for a free
--   cluster run on fuel, the number of entries: a chain that ends and a search that succeeds need no
--   more. Fat/File has `FileDescriptor` with `Read` and `Load`, Fat/Writing `Write`; a volume is the
--   table and the bytes of the clusters. Their loops run on fuel, the number of bytes that are asked
--   for, since each round moves at least one. Fat/Names has the 8.3 names,
--   Fat/Directory `FindFile`, `AllocateEntry`, `CreateFile` and `DeleteFile`; a search along a chain
--   runs on the number of entries of the table and one more.
-- kernel/font.cpp: Font, the decoding of UTF-8; Font/Encode has the encoding that it is compared with.
-- kernel/terminal.cpp, kernel/terminal.hpp: Terminal has the cursor, the line and the history of
--   `InputKey` and `Print`. `ExecuteLine` is a parameter, and what is drawn a log of cells. The loop of
--   `Print` runs on fuel, a round for each character and one more. Terminal/Cells and Terminal/Keys have
--   the bounds, Terminal/Printing the characters, Terminal/Editing and Terminal/History the line,
--   Terminal/Argv `MakeArgv`, whose loop runs on the length of the line and one more. Pipe is
--   `PipeDescriptor`, over the messages of the reading task.
-- kernel/file.cpp, kernel/file.hpp: FileDescriptor, `ReadDelim` over an interface of what it uses of a
--   descriptor. FileDescriptor/Line has what it reads from any of them, FileDescriptor/OfPipe the pipe and
--   FileDescriptor/OfFile the file of kernel/fat.cpp.
-- kernel/console.cpp, kernel/console.hpp: Console, its text and its cursor; Console/Page has the lines
--   that it is to show.
-- kernel/timer.cpp, kernel/timer.hpp: Timer. The priority queue is a list in the order of the timeouts;
--   `Tick` takes the tasks along, since it sends messages. Its loop runs on the number of timers, and
--   each is due at most once.
-- kernel/graphics.hpp: Graphics, the vectors and rectangles. kernel/layer.cpp, kernel/layer.hpp: Layer,
--   the layers and their stack; the stack is a list of ids from the bottom to the top. Layer/Placing
--   has `SetIndex` and `Hide`, Layer/Rising the active layer, Layer/Position the search.
-- kernel/paging.cpp, kernel/paging.hpp: Paging, the tables of pages over the frames of Memory. A table
--   is a function from indices to entries, and a loop over a table has at most 512 rounds. Paging/Sound
--   and Paging/Frame have what is kept, Paging/Setup and Paging/OnePage the mapping of a page,
--   Paging/CopyOnWrite the page that is copied, Paging/Address the steps of the addresses.
-- kernel/usb/memory.cpp, kernel/usb/memory.hpp: UsbMemory, the pool of the USB driver.
-- kernel/usb/xhci/ring.cpp, ring.hpp: Ring, the producer ring. Ring/Laid has the layout of the cycle
--   bits, Ring/Consumer the controller that reads the ring; it is the specification, and its fuel is
--   two rounds.
-- kernel/usb/xhci/ring.cpp, ring.hpp, xhci.cpp: EventRing, the event ring and `ProcessEvents`, whose
--   rounds are the places of the ring. The controller that fills it (EventRing/Queued) is the
--   specification; EventRing/Posting, EventRing/Processing and EventRing/Batches have what it writes
--   and what the driver reads.
-- kernel/usb/arraymap.hpp: ArrayMap, over any comparison of keys.
--
-- Not modelled: register contexts, assembly and device registers, drawing and glyphs, the boot loader,
-- the commands of the terminal and the loading of programs, the rest of the USB stack, the
-- applications, and what is only logged.
pub mod Base
pub mod Console
pub mod ErrorCode
pub mod EventRing
pub mod Paging
pub mod Pipe
pub mod Queue
pub mod Memory
pub mod Message
pub mod Task
pub mod Fat
pub mod FileDescriptor
pub mod Font
pub mod Terminal
pub mod Timer
pub mod UsbMemory
pub mod Graphics
pub mod Layer
pub mod Ring
pub mod ArrayMap
