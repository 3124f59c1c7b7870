-- ===== src/Lib.antt =====
-- Verification of the FRANK universal test firmware: one image that finds out which board it runs on,
-- says which tests the board can take, runs them and shows the result.
--
-- The parts and how they meet:
--   * Board (core/frank_caps.h, core/board_desc.h, core/board_table.c): the descriptors of the thirteen
--     boards, as records with the source's fields. A pin is `none` where the source has PIN_NC. The
--     signature of a board is the list of its entries. Board.Table has the lookups.
--   * PinSig (core/pinsig.c): `pinsig_classify` as the list of the SDK's calls in order, with what the
--     pad reads as an input, and `pinsig_score`.
--   * OneWire (core/detect.c): the bytes and the checksum of the silicon serial number.
--   * Detect (core/detect.c): `tier0_silicon`, `tier1_probes`, `tier1_consistent`,
--     `tier2_fingerprint` and `detect_run`. A `Bench` is what the hardware answers: registers, probes
--     and pads. The static arrays of the source hold 24 boards and the table has 13, so the cut of
--     `frank_boards_for_mcu` is never reached.
--   * Registry (core/registry.c, and `run_all` of app/main.c): the test list, which tests a board lets
--     run by its capability bits, and the counters. A test is its `run`, a function of the detection.
--   * Crc, Link.Frame, Link.Pattern (common/link_proto.c): the CRC-32, the control frame of 128 bytes
--     and the pattern of the bulk transfers. A frame is its list of bytes, a buffer its list of words.
--   * Settings (core/settings.c): the identity record in the last sector of the flash, over a part
--     that is a parameter; Settings.Stored.IsPart says what is relied on of it.
--   * Request (core/video_request.c, core/oc_request.c, and the overclock's take in `main` of
--     app/main.c): what one boot asks of the next in the watchdog's scratch registers, which are a
--     record. Setting the regulator, the flash timings and the clock is not modelled.
--   * VideoSelect (core/video_select.c): the boot window and the five steps of the choice. The turns
--     of the window are a list of what each source answers, as long as the time allows.
--   * MemTest (common/mem_test.c): the probe, the sweep and the self-test of the memories. The PSRAM is
--     a parameter; MemTest.Part says what is relied on of one, which wraps round at its end or is open
--     above it. The probe's loop has six sizes, 1 to 32 MB, and six turns.
--   * I2c (core/i2c_bb.c): the bit-banged I2C, as the list of calls on the two lines. I2c.Wire is what a
--     receiver makes of such a list, by the levels and the edges alone.
--   * Link.Bus (common/link_bus.c): the buses and the doorbells as a record; what the hardware answers to
--     a loop that polls it is a list of readings, as long as the time allows. Dividers are counted in
--     1/256. The record keeps the transmissions, with the divider of each, and the limits of the waits.
--   * Link.Session and Link.Serve (common/link_session.c): the master's and the slave's half.
--     Link.Operations has any sequence of them, Link.Exchange one request and its reply between the two
--     sides, call by call in any order that the doorbells allow, with the ways that a wait can end:
--     Link.Exchange.Progress is about the runs in which no time limit runs out, Link.Exchange.Ends
--     about all.
--   * VideoDetect (core/video_detect.c): the RGB probe, the test of the clock pair and the verdict. The
--     pads of a pair are a parameter of the definitions, so that the watched pads can be two names.
--   * UiInput (ui/ui_input.c): the keys of the console and of a USB keyboard, the merge of the sources,
--     and the pointer, for a build with both a USB host and PS/2. What each call of `getchar_timeout_us`
--     answers is an input, and so are the reports.
--   * UiMenu (ui/ui_menu.c, and what `main` of app/main.c does with a title and the pointer): the menu
--     bar's geometry, its hit tests and its navigation by keys.
--   * Register and Prelude: shift registers with feedback over bits, which both checksums and the
--     pattern are instances of; lists, bytes, masks and the names that the files share.
--
-- Integers are natural numbers, and a cast or an unsigned counter writes its wrap-around out
-- (`u16`, `u32`). Loops are recursions on the list or the count that is left, so there is no fuel; a loop
-- that polls until a deadline takes its readings from a list that ends there.
-- Signed results that the source compares with zero only, as the margin, are never negative here.
--
-- What is not modelled: waits and timing, printing and drawing, the drivers, the contents of the
-- tests, and the libraries that the repository carries copies of.
pub mod Board
pub mod Crc
pub mod Detect
pub mod I2c
pub mod Link
pub mod MemTest
pub mod OneWire
pub mod PinSig
pub mod Prelude
pub mod Register
pub mod Registry
pub mod Request
pub mod Settings
pub mod Tests
pub mod UiInput
pub mod UiMenu
pub mod VideoDetect
pub mod VideoSelect
