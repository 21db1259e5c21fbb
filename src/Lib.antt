-- ===== src/Lib.antt =====
-- The firmware of a battery e-ink sign (mender-mcu-integration): it wakes, shows the image that
-- its schedule calls for, fetches images, logs and updates over WiFi, and sleeps until the next
-- job.
--
-- The parts, in mender-mcu-integration/src/eink, and the files that model them:
--   Frame, Frame.Stream, Frame.Palette: eink_frame.c. The ES6F image file: its header, its
--     validation, as a whole and piece by piece, the building of frames and test patterns.
--   LogRing, LogRing.Redact: eink_log_ring.c. The ring that keeps the newest log bytes, and the
--     redaction of what is uploaded.
--   Scheduler.Civil, Scheduler.Cron, Scheduler.Core: eink_scheduler_core.c. Dates, the cron text,
--     which job is shown (eink_scheduler_decide) and when the device wakes next.
--   Scheduler.Run: eink_scheduler.c. The scheduler's state: eink_scheduler_tick, _repaint and the
--     other calls, over the core, the store and the display.
--   Power: eink_power.c. The rails, and the entry into SNVS sleep.
--   Wake: eink_wake.c. One wake, which calls the power helpers, the scheduler and the network, and
--     ends in eink_power_enter_snvs.
--   OtaStage: eink_ota_stage.c. The staging of an update in a file.
--   T2000, T2000.Wait: eink_t2000_proto.c. The commands to the T2000 controller, a solid fill, and the
--     wait for the controller.
--   Panel: eink_panel.c. Which panel is connected.
--   Store: eink_store.c. Its files: Atomic (the write into a temporary file, which is synchronised
--     and renamed), Reader (the read of a file), Json (json_quote_append and json_extract_string),
--     Decimal (%lld and strtoll), Creds (the credentials), Settings (the last sync and the last job),
--     Schedule (the jobs), Hash (the hash of a download, the directories), Images (paths, which image
--     is shown, put_image), Validate (eink_store_validate_path), Accept (accept_temp_image and
--     materialize_es6f).
--   Http.Url, Http.Download: eink_http.c. URLs and redirects, the test of a download's first bytes, and
--     http_download_to_file with do_http and the callback of its responses.
--   Display, Display.Paint, Display.Rows, Display.Screen, Display.Handler, Display.Steps:
--     eink_display.c. The queue of one command, the status, the semaphore and the handler; what a
--     command paints; the previews; the display interface; the handler as a whole, and the calls and
--     its critical sections as steps in any order.
--   El133, El133.Stream, El133.Device:
--     mender-mcu-integration/modules/eink-el133/drivers/display/display_el133uf1.c. The driver of the
--     panel: its transfers to two controllers, the registers, the refresh, the streamed frame.
--     El133.Heard says what the controllers hear.
--   Lz4: eink_lz4.c. The expansion of an LZ4 frame into an image file; Store.Accept calls it.
--   Prelude (with Prelude.Lists, Prelude.Int, Prelude.Code, Prelude.Text), Bytes, Crc, Fs: lists
--     and integers, return codes, little-endian fields, and what is used of Zephyr's checksum and file system.
--
-- Conventions. Each static variable of a C file is a field of a record that the functions take
-- and return; a function under a mutex is one step, and the ticks and repaints of
-- Scheduler.Run, which release it for the show, are two, with what the other threads do in
-- between. An `int` result is a Ret: a value or an
-- errno. A C string is the list of its bytes without the 0. Unsigned 32-bit values wrap where
-- the source's do; an `int64_t` time is an unbounded integer, and what is stated of times asks
-- for less than 2^54 seconds around the epoch, where the year fits an `int`. The numbers that
-- `sscanf` reads are not bounded. The buffers that a path, an identifier or a line is printed
-- into are as long as the source's where a text can be cut off; paths and identifiers are not
-- null, where no Option says so. Every loop is structural recursion on the list that it walks;
-- the streaming validation walks the list of pieces that the read callback hands out. Eleven loops
-- take fuel. T2000.cuts and Lz4.gather are given the number of bytes left, since every piece has
-- a byte at least. Lz4.pump is given a turn for every byte of the input and of the image, which is
-- enough for a library that takes or gives a byte in every turn that goes on; lz4frame.h does not
-- promise that, and a library that does not would keep the loop of the source going.
-- Store.Validate.read_loop is given two turns more than a payload has bytes, since a chunk has a byte and one that goes past the payload is
-- refused. Store.Decimal.show_digits is given 20 digits, and a `long long` has 19.
-- T2000.Wait.wait_loop is given a turn for every sleep of 100 ms in its timeout and one more; a
-- negative timeout is no timeout, and may wait for ever. El133.ready_loop is given a turn for every
-- sleep of 5 ms in its timeout and two more. El133.Stream.load_loop and stream_loop and
-- Display.Paint.gather are given the number of bytes, since a turn takes a byte at least, and
-- Http.Download.attempt the redirects that are left.
--
-- Zephyr is a parameter: Crc (crc32_ieee), Fs (its file system, with Lawful, Apart,
-- Readable and Durable for what it promises), Power.Board (GPIO, clock, configuration), T2000.Usb (bulk
-- transfers), T2000.Wait.Clock, Panel.Drivers, El133.Bus (SPI, GPIO and the clock, with Wired,
-- Supports and Works), Display.Screen (the display interface), Http.Download.Net (connections and
-- the HTTP client), Scheduler.Run.Device and Wake.Services (the
-- store, the display and the network as those modules call them). The LZ4 library is Lz4.Lz4. To
-- run the code, Fs.Medium is a file system that keeps a file by its path, Crc.Sum a
-- checksum, and El133.Wires a bus that keeps what is heard.
--
-- Not modelled: the rest of eink_http.c (the protocol with the server), eink_location.c but for its
-- atomic write, the branches for native_sim that call fopen, the USB and GNSS drivers, the shell and
-- the self test, and the register sequence of rt118x_enter_snvs, which is the answer `suspend` of
-- Power. The last ones are drivers and glue.
pub mod Bytes
pub mod Crc
pub mod Display
pub mod El133
pub mod Frame
pub mod Fs
pub mod Http
pub mod LogRing
pub mod Lz4
pub mod OtaStage
pub mod Panel
pub mod Power
pub mod Prelude
pub mod Scheduler
pub mod Store
pub mod T2000
pub mod Wake
