-- ===== src/Lib.antt =====
-- sstoraged: an iSCSI target in user space. This library models the parts of it through which the
-- data of a disk passes, and proves what makes them correct.
--
-- The program. A session (include/session.h, src/session.cpp) takes PDUs from its tokenizer and hands
-- them to a handler for their opcode. WRITE(10) (src/scsi/write.cpp) and Data-Out
-- (src/iscsi/dataout.cpp) turn the data segment of a PDU into a write segment and push it into the
-- write cache of the LUN (src/writecache.cpp), from which a disk writer takes it later. READ(10)
-- (src/scsi/read.cpp) searches the same cache and queues tasks that send each block from there or
-- from disk. Every command advances the command window (advanceCMDSNs), whose size the limitter
-- (include/limitter.h) takes from the size of the buffer pool.
--
-- The files.
--   Common and below: numbers, tests, lists; unsigned arithmetic of 32 and 64 bits.
--   Counter: include/counter.h, IncrementalCounter and NumberCounter.
--   Limitter: LinearLimitter::getY, getCMDQueue, findLargestWriteCache and advanceCMDSNs.
--   Cache: WriteSegment and WriteCache. Below it, Search, Merge, Store, Pending and Push are about
--     push and _search, Fifo about _front and getNext, and Linear is an index that meets the
--     interface LbaIndex.
--   Session: the state that the handlers share, PDU headers and send tasks.
--   Read: ReadHandler. Below it, Hits and Tiling are about sendCache, Frames about the PDUs, Serve and
--     Whole about the handler.
--   Transfer: frontDataSegment, WriteHandler and DataOutHandler. Below it, DataSegment is about the
--     first, Sequence, Finish and Complete about Data-Out, Open about WRITE.
--   SendCache: SendCacheTask. Below it, Place is about _stepForward, Position about where a task stands
--     in the data of its segment.
--   Sending: SendTask and SendfileTask of src/send.cpp and src/sendfile.cpp, and the iovec of the first.
--     Below it, Stream is about the bytes of buffers on the socket, File about the bytes of a volume.
--   Dispatch: doWork, invoke, the shifts of a session's type and its connections. Below it, Work is
--     about the two loops, Connections about the map.
--   Volume: getCoverage and getLowHandles. Below it, Layout is about the bytes that the handles cover.
--   DiskWriter: addHandle, getHandle, doWrite, needNotify and doWork of src/diskwriter.cpp. Below it,
--     Extents is about what doWrite has written, Resolve about getHandle, Lands and Segment about where
--     the bytes of a segment go, Order about the order of the segments.
--   Buffers: CommonBuf and IovecContainer of src/ioveccontainer.cpp. Below it, Space is about the steps
--     of the tails, Reading about stepForwardOffset, Turning about update, Start about reserve.
--   Tokenizer: push and pop of src/iscsi/tokenizer.cpp, over the bytes in memory. Below it, Take is
--     about the loop over a PDU, Progress about push.
--   KeyValue: the keys of a login and their validators (src/iscsi/keyvalue.cpp, include/validator.h).
--     Below it, Handlers has the handlers of the keys, Values is about what they agree on.
--   Login: LoginHandler of src/iscsi/login.cpp. Below it, Pairs has the parser of the data segment,
--     Stages is about the stages and the handlers of a session, Requests about the whole handler and
--     sequences of requests.
--   Control: logout, NOP-Out, NOP-In and task management (src/iscsi). Below it, Numbering is about the
--     StatSN of the replies over sequences of requests.
--   DataInBuffer: the buffer of DataInGenerator (src/iscsi/datain.cpp). Below it, Padding is about how
--     long the PDU is that it sends.
--   Scsi: what the small SCSI handlers share. Below it, Inquiry, Capacity (READ CAPACITY), Luns (REPORT
--     LUNS), ModeSense and Sense (MAINTENANCE IN, and the dummy) are the handlers of src/scsi. Parts is
--     about data segments made of parts, Luns/Listed and ModeSense/Layout and Whole about where the
--     bytes of the two are.
--   Commands: CommandHandler of src/iscsi/command.cpp. Below it, Counting is about the command window,
--     Answers and Areas about the replies of each handler, Told about READ CAPACITY and what follows,
--     Whole and Reading about the handler as a whole.
--   Tagged: TaggedConfigurator of include/taggedconfigurator.h. Below it, Entries is about its
--     implementation over a JSON array, Lookup about find, Plain has the plain list that it is compared
--     with, Clearing is about remove and clear, Contents about sequences of operations.
--   AioWriter: AioDiskWriter of src/diskwriter.cpp. Below it, Ends is about how the ends of writes are
--     counted.
--   Tests: the theorems at concrete inputs.
--
-- How code becomes definitions. A class is a record with the names of its members, an operation a
-- function from the old state to the new one; a failure is a false flag, with the state as the code
-- leaves it. A pointer to a segment is an address: the index of the cache holds the segments and its
-- FIFO the addresses. The container of boost is an interface with what its documentation says of
-- lower_bound and insertion. Sizes wrap as their types do. The loops of READ and of advanceCMDSNs have
-- fuel: as many rounds as blocks for the one, 144 for the other, and theorems say that it is enough. So
-- have the loops of the tokenizer (a round for each byte), of update (one for each buffer) and of the
-- disk writer (one for each byte of a part, and for each entry of the FIFO).
-- TaggedConfigurator searches and clears with a round for each entry. The loop of AioDiskWriter::doWork
-- takes its fuel as an argument, and no theorem is about it.
--
-- Not modelled: threads and locks (an operation runs alone, as it does under its lock), sockets and
-- files, JSON values and the classes of the configuration's entries, the start of the process, and log messages.
pub mod Common
pub mod Counter
pub mod Limitter
pub mod Cache
pub mod Session
pub mod Scsi
pub mod Read
pub mod Transfer
pub mod Commands
pub mod SendCache
pub mod Sending
pub mod Dispatch
pub mod Volume
pub mod DiskWriter
pub mod Buffers
pub mod Tokenizer
pub mod KeyValue
pub mod Login
pub mod Control
pub mod DataInBuffer
pub mod Tagged
pub mod AioWriter
pub mod Tests
