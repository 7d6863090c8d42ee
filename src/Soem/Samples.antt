-- ===== src/Soem/Samples.antt =====
-- A network, a port and a context to run the library's functions on.
use bharatiya_beagle_bone.Common.{ℕ, suc, true, false, [], ◌∷◌, replicate}
use bharatiya_beagle_bone.Common.Int.{pos}
use bharatiya_beagle_bone.Soem.Frame.{Frame}
use bharatiya_beagle_bone.Soem.Nic.{Wire, Stack, Port, Net}
use bharatiya_beagle_bone.Soem.Errors.{ErrorList, no_error}
use bharatiya_beagle_bone.Soem.Slaves.{no_slave, Context}

-- Nothing ever answers, and every timer is found expired at once; the world counts what is sent.
abbrev pub silent : Wire ℕ
silent = record {
  send = λ _ _ w. (pos 0, suc w);
  recv = λ _ w. ([], w);
  polls = λ _ _. 0;
  usleep = λ _ w. w;
  current_time = λ w. (w, w);
}

abbrev pub free_stack : Stack
free_stack = record {
  rxbuf = replicate 16 (replicate 40 0);
  rxbufstat = replicate 16 0;
  rxsa = replicate 16 0;
  tempbuf = replicate 54 0;
}

abbrev pub blank_frame : Frame
blank_frame = record { bytes = replicate 64 0; txbuflength = 0 }

abbrev pub free_port : Port
free_port = record {
  primary = free_stack;
  secondary = free_stack;
  redundant = false;
  txframes = replicate 16 blank_frame;
  txframe2 = blank_frame;
  lastidx = 0;
}

abbrev pub quiet_net : Net ℕ
quiet_net = record { port = free_port; world = 0 }

abbrev pub no_errors : ErrorList
no_errors = record { head = 0; tail = 0; cells = replicate 65 no_error; ecaterror = false }

-- Slave 0 is the master's; slave 1 uses its own EEPROM.
abbrev pub two_slaves : Context ℕ
two_slaves = record {
  net = quiet_net;
  slavelist = no_slave ∷ record no_slave { configadr = 0x1001; eep_pdi = true } ∷ [];
  slavecount = 1;
  esibuf = replicate 4096 0;
  esimap = replicate 4096 false;
  esislave = 0;
  elist = no_errors;
  grouplist = [];
  idxstack = record { pushed = 0; pulled = 0; idx = []; places = []; lengths = []; dcoffset = [] };
  dctime = replicate 8 0;
  iomap = replicate 16 0;
}
