-- ===== src/Lib.antt =====
-- A model of the host side of a 3D printer firmware, written in Go: the protocols it speaks
-- with micro-controllers and other boards, and the state machines that drive them. A command is
-- built by `msgproto`, goes out in a block, and answers come back the same way; `mcu` configures a
-- controller at start-up, resets it, and runs the homing trigger and the motor enable pins over
-- that protocol; `tmc` makes the frames for the driver chips and keeps their registers, `io` follows
-- buttons and knobs, `filament` talks to the filament changer. `reactor` wakes what waits, `printer`
-- gives out the pins, `gcode` reads lines, keeps the coordinates and pauses and resumes a print,
-- `motion` plans the speeds of moves, `heater` checks that a heater heats, `print` keeps the account of
-- a print, `addon` prints from a file and is to leave out excluded objects, and `webhooks` calls
-- methods of its clients.
--
-- Common      numbers, lists, bits, signed integers and string maps that the models share.
-- Msgproto    internal/pkg/msgproto/msgproto.go. Vlq: PT_uint32.Encode and Parse. Block: Crc16_ccitt
--             (in Crc), Encode_msgblock, Check_packet. Param, Format: the parameter types,
--             MessageFormat.Encode, Encode_by_name and Parse, MessageParser.Parse.
-- Tmc         internal/pkg/tmc/transport_codecs.go. Uart: CalcCRC8ATM, AddSerialBits, EncodeUARTRead,
--             EncodeUARTWrite, DecodeUARTRead. Spi: BuildSPIChainCommand, DecodeSPIChainResponse.
--             Fields: FieldHelper of internal/pkg/tmc/field_helper.go, with registers as int64.
-- Mcu.Trsync  internal/pkg/mcu/trsync.go, trsync_controller.go and the handlers of
--             trsync_managed.go, as a state with a step for each call.
-- Mcu.Enable  internal/pkg/mcu/stepper_enable.go: pins, trackers, and a pin that several share.
-- Mcu.Connect internal/pkg/mcu/config_session.go, connect_runtime.go, config_session_runtime.go and
--             BuildConfigPlan of bootstrap.go. Hooks are functions on a world that the theorems
--             quantify over.
-- Mcu.Restart internal/pkg/mcu/lifecycle.go and restart_executor.go.
-- Io          internal/pkg/io/buttons.go: DigitalButtonState (Buttons) and RotaryEncoder (Encoder).
-- Filament    internal/pkg/filament/ace_crc.go and the frames of ace_commun.go (Framing).
-- Gcode       internal/pkg/gcode/pause_resume.go (PauseResume), gcode_parse_helpers.go (Parse, with
--             ParseExtendedParams in Parse.Extended), over lines that are lists of ASCII bytes, and
--             gcode_move_module.go (Move, over a parameter for floats: applyMoveParameters in Move,
--             the commands in its children) with Get_float of command_params.go (Params), and
--             ParseDispatchCommandLine and RegisterCommand of dispatch_runtime.go (Dispatch).
-- Motion      internal/pkg/motion/move_queue.go: a move and its junctions (Move), the look-ahead queue
--             (LookAhead), over a parameter for floats. The toolhead in whole microseconds: the timing
--             state of toolhead_runtime.go (Toolhead), BuildToolheadFlushHandlerPlan of
--             toolhead_flush.go (FlushTimer), toolhead_pause.go (Pause), toolhead_drip.go (Drip), and
--             toolhead_move_runtime.go and move_batch.go with the lookahead and waiting methods of
--             project/goklipper.go (Queueing), over a clock and pauses that act on a world.
-- Reactor     internal/pkg/reactor/reactor.go: the timers of the event loop (Timers, with times in whole
--             microseconds) and ReactorMutex (Mutex), whose users take steps in any order.
-- Heater      internal/pkg/heater/verify.go (Verify), with temperatures in whole thousandths.
-- Printer     internal/pkg/printer/pins.go (Pins), with texts as lists of bytes.
-- Print       internal/print/idle_timeout.go (IdleTimeout, in whole milliseconds) and stats.go (Stats, over
--             the parameter for floats).
-- Addon       internal/addon/exclude_object.go (ExcludeObject), over a parameter for floats
--             (Common/Real), with its calls and a transform that stands where its last move left it
--             (ExcludeObject/Calls); and virtual_sd.go with the Work_handler of virtual_sd_module.go
--             (VirtualSd), with reads, scripts and pauses as steps.
-- Webhooks    the remote methods of internal/pkg/webhooks/registry.go (Remote).
--
-- Go's `int` and `int64` are natural numbers where they can not be negative and integers elsewhere;
-- a wrap to 16, 32 or 64 bits is written out where the code's values can reach it. A panic, an index
-- out of range above all, is `none`. Loops are recursion on the list they walk; the two parsers of
-- G-code have fuel for one round per byte and the loop of AdvanceMoveTime for one per microsecond,
-- the waits of the toolhead take theirs as an argument; how much is enough the entries below say.
-- Checksums of Go's libraries, clocks, devices and callbacks are parameters or effects in a list. An
-- error text is a constructor.
--
-- Not modelled: the rounding of floats, goroutines and the switching of greenlets, the serial queue and
-- the C code, kinematics and the positions of the toolhead, the control of heaters and fans, the servers
-- of the web API, and the configuration files.

pub mod Common
pub mod Msgproto
pub mod Tmc
pub mod Mcu
pub mod Io
pub mod Filament
pub mod Gcode
pub mod Heater
pub mod Printer
pub mod Print
pub mod Addon
pub mod Motion
pub mod Reactor
pub mod Webhooks
