-- ===== src/Tests/Programs.antt =====
-- Cards, drivers and systems for the examples of the test programs and the co-installer.
use netmodem2irc.Base.{
  ℕ, ◌*◌, [], ◌∷◌, List, Bool, true, false, ltb, ◌==◌, if◌then◌else◌, replicate,
}
use netmodem2irc.Card.{Card}
use netmodem2irc.Detect.{Report, Row, Clock}
use netmodem2irc.FossilTest.{Fossil}
use netmodem2irc.Stress.System.{Windows as StressWindows, Call, Worker}
use netmodem2irc.Stress.Threads.{State, Thread, Action, Main, Move}
use netmodem2irc.CoInstall.{Windows as CoWindows}
use netmodem2irc.Tests.Fixtures.{new_card}

-- A card whose first two places answer 0x46, and the others and the EPLD 0x4A.
abbrev pub isa_bytes : ℕ → ℕ
isa_bytes a = if ltb a 0xD4800 then 0x46 else 0x4A

abbrev pub isa_card : Card
isa_card = record new_card { card_base = 0xD4000 }

abbrev isa_row : ℕ → Clock → Row
isa_row rev clock = record { revision = rev; letter_j = false; clock = clock; good_chans = 4 }

abbrev pub isa_report : Report
isa_report = record {
  epld = 0x4A;
  rows =
      isa_row 0x46 Clock.mhz_25
      ∷ isa_row 0x46 Clock.mhz_25
      ∷ replicate 6 (isa_row 0x4A Clock.unknown);
  total_chips = 8;
  total_ports = 32;
  exit_code = 0;
}

-- A FOSSIL driver that gives back the byte 0xA5.
abbrev pub fossil : Fossil
fossil = record {
  ax = λ calls regs.
      if regs.ah == 4
      then 0x1954
      else (if regs.ah == 3 then 0x6100 else (if regs.ah == 2 then 0xA5 else 0));
  bx = λ calls regs. 19200;
}

abbrev reads : Call → Bool
reads (Call.read n) = true
reads _ = false

-- A system on which every call succeeds with 1, but a read gives nothing, and takes 300 ms.
abbrev pub busy : StressWindows
busy = record { answer = λ calls c. if reads c then 0 else 1; clock = λ n. n * 300 }

-- The phase waits while the writer is before its call.
abbrev pub late : State
late = record {
  stop = true;
  port_open = true;
  timed_out = false;
  main_at = Main.waiting;
  writer_at = Thread.in_body Action.write_file [];
  reader_at = Thread.ended;
  ioctl_at = Thread.in_body Action.modem_status (Action.clear_error ∷ Action.rest ∷ []);
  calls = [];
}

-- The moves of a phase whose third thread could not be made, and where they lead.
abbrev pub stopping : List Move
stopping =
    Move.thread Worker.writer
    ∷ Move.thread Worker.writer
    ∷ Move.thread Worker.reader
    ∷ Move.sets_stop
    ∷ Move.thread Worker.writer
    ∷ Move.thread Worker.reader
    ∷ Move.thread Worker.reader
    ∷ Move.wait_ends
    ∷ Move.closes
    ∷ []

abbrev pub stopped : State
stopped = record {
  stop = true;
  port_open = false;
  timed_out = false;
  main_at = Main.finished;
  writer_at = Thread.ended;
  reader_at = Thread.ended;
  ioctl_at = Thread.ended;
  calls = (Action.read_file, true) ∷ (Action.write_file, true) ∷ [];
}

-- A system on which every call succeeds and COM 5 is claimed.
abbrev pub claiming : CoWindows
claiming = record { answer = λ calls r. 1; claim = λ calls. (5, true) }
