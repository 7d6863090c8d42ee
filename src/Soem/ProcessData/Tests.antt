-- ===== src/Soem/ProcessData/Tests.antt =====
-- Outputs in two segments.
use bharatiya_beagle_bone.Common.{ℕ, false, [], ◌∷◌, replicate}
use bharatiya_beagle_bone.Common.Int.{pos}
use bharatiya_beagle_bone.Soem.Frame.{Frame}
use bharatiya_beagle_bone.Soem.Slaves.{Group, Context}
use bharatiya_beagle_bone.Soem.ProcessData.{Sending}
use bharatiya_beagle_bone.Soem.Samples.{free_port, quiet_net, two_slaves}

abbrev outputs : Group
outputs = record {
  obytes = 6;
  outputs = 2;
  ibytes = 0;
  inputs = 8;
  logstartaddr = 0;
  hasdc = false;
  dcnext = 0;
  blocklrw = 1;
  nsegments = 2;
  isegment = 1;
  ioffset = 2;
  iosegment = 4 ∷ 4 ∷ [];
}

abbrev start : Sending
start = record { left = pos 6; logadr = 0; place = 2; segment = 0; first = false }

abbrev whole_buffer : Frame
whole_buffer = record { bytes = replicate 1518 0; txbuflength = 0 }

-- Sixteen buffers of 1518 bytes, and room for the stack of frames.
abbrev with_buffers : Context ℕ
with_buffers = record two_slaves {
  net = record quiet_net { port = record free_port { txframes = replicate 16 whole_buffer } };
  idxstack = record {
    pushed = 0;
    pulled = 0;
    idx = replicate 16 0;
    places = replicate 16 0;
    lengths = replicate 16 0;
    dcoffset = replicate 16 0;
  };
  iomap = 10 ∷ 11 ∷ 12 ∷ 13 ∷ 14 ∷ 15 ∷ 16 ∷ 17 ∷ [];
}
