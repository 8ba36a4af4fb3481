-- ===== src/Lib.antt =====
-- A LIDAR remote control system on a drone: a server on the drone that drives the logger of the
-- sensor and sends its files, a client on the ground that fetches them while they are written, and a
-- program that plays the logger.
--
-- The parts of the program, and the files that model them:
--   Common (app/common): common_lib.c reads bytes and lines from a socket through `buffer_tcp`
--     (Common/TcpBuffer.antt); compression_lib.c turns files into compressed buffers and back
--     (Common/Compression.antt); the structures of common_lib.h are in Common/Info.antt. MakePath and
--     DirExists, which the programs repeat, are in Common/Paths.antt.
--   Server (app/server): server_lib.c has the handlers of the commands. Server/Logger.antt: ProcNumber,
--     Status, Start, Stop. Server/Scan.antt: FindNextTr, FindNextFile, FindLidarDataInfo,
--     FindFirstDir, StringToTime, ExtractFileNumber. Server/Transfer.antt: SendNext, CompressAndSend,
--     SendFile. Server/Remove.antt: RemoveFile, RemoveDir, rmrf, unlink_cb. Server/Handler.antt:
--     server_handler of server.c, the child process that reads a line and runs its command.
--     Server/Process.antt: its main and error_handler.
--   Client (app/client): client_lib.c. Client/Exchange.antt: TcpSendReceiveTT, ExitTransmissionThread.
--     Client/Receive.antt: tcp_binary_getchar_bs, ReceiveAndDecompress. Client/Request.antt:
--     RequestFile, RequestAllReaminingFiles, CreateTransmissionDir. Client/Transmission.antt: the loop
--     of transmission_thread. Client/Console.antt: io_lib.c. Client/Main.antt: main of client.c with
--     TcpSendReceiveMT, ExitMainThread, CreateTransmissionThread and Connect. Client/Threads.antt: the
--     main thread and the transmission threads interleaved, as steps on `status`, `running` and the
--     threads; its children prove what holds in every interleaving. Client/Log.antt: PrintLog and
--     TimestampString.
--   Data generation (data_generation): voxl-logger_lib.c is in DataGen/Copy.antt, the generation of
--     voxl-logger.c in DataGen/Generate.antt, its options and signals in DataGen/Options.antt.
--   Wire relates the two sides of the connection: what one prints and the other scans, a file from the
--     server's disk to the client's (Wire/Cycle.antt), the rounds of the transmission thread for many
--     files (Wire/Session.antt), the end of a directory (Wire/Remaining.antt, Wire/Finish.antt) and both
--     together (Wire/Session/Directory.antt). The other side, the child of the server that reads the
--     commands for a directory on its disk, is in Wire/Serve.antt: Server/Disk.antt says what a disk with
--     one directory is, Wire/Serve/Files.antt and Wire/Serve/Asks.antt serve its files, and
--     Wire/Serve/Ending.antt its end. Wire/Said.antt follows what the thread sends, and
--     Wire/Delivery.antt joins the two sides. World/Keeps.antt, Server/Frame.antt and Wire/Frame.antt say
--     what a run leaves as it was.
--
-- The model. A piece of code is a function of the state of its environment (World.antt). It returns a
-- value, ends its process or thread with a status, or writes past the end of an array, which is the
-- outcome `overflow`. World is a record of the calls that the program makes of the operating system,
-- of zlib and of the TCP library: their behaviour is a parameter, and a theorem that relies on some of
-- it names it as a hypothesis (IsStream: a connection delivers its bytes in order, in packets of any
-- size; SendsAll, Sending, Appends, MakesDirs: sending, writing and mkdir succeed; StoresFiles: a file that
-- can be opened for writing is written, and of the calls only rename could change that it can;
-- SetsShared: the lock works; FilesApart: writing one file leaves the others, and a directory stays
-- there unless it is renamed; Remembers: a rename of one that is there succeeds; Compresses, Unpacks:
-- zlib; Disk, Leftovers: the directories of the drone are read and removed; Duplex: sending reads
-- nothing and receiving sends nothing; Speaks: only sending adds to what is sent). Bytes are numbers
-- and strings are lists of them. Libc has the conversions of printf and sscanf, and fgets, as far as
-- the program uses them.
--
-- A `char` is signed, so that the byte 0xFF is the EOF that tcp_readline tests for. An array that is not
-- initialised is an argument. snprintf cuts; sprintf and an sscanf of `%s` with no width give `overflow`
-- if the text does not fit. strncpy that leaves no NUL is read up to the end of its array. The number
-- that ExtractFileNumber reads is an `int`: a name without one, or with one that does not fit, leaves
-- what the variable held, which may differ from call to call and is given by World (`junk_number`; the
-- same holds for the field tm_isdst that strptime leaves, `junk_isdst`). The number of compressed bytes
-- is converted from `long` to the `int` that tcp_binary_send takes. The other numbers that sscanf reads
-- are not bounded, and a counter of received bytes is not either: where an `int` would matter in a
-- theorem the length is bounded by 2^31. What strcpy does with a NULL argument of main is given.
--
-- Loops. tcp_readline recurses on the room in the caller's array, and what would be stored behind it is
-- `overflow`. The loops over the entries of a directory and over the lines of a file recurse on lists,
-- and MakePath on the path. The loops that wait for the outside (the child of the server, both
-- threads of the client, the generation) take a number of rounds, and `none` says that these were too
-- few; for the child of the server, for the transmission thread with a whole directory, for requests
-- that are answered by WAIT, for Connect and for a lost control connection a theorem gives a number that
-- is enough.
--
-- Not modelled: the calls of PrintLog and what is printed on the standard output, the delays, and
-- tcpsocketlib.c, a third-party library of which the repository has three copies.
pub mod Base
pub mod Libc
pub mod World
pub mod Common
pub mod Server
pub mod Client
pub mod DataGen
pub mod Wire
pub mod Tests
