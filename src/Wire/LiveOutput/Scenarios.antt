-- ===== src/Wire/LiveOutput/Scenarios.antt =====
-- live-output.ts: an attempt that prints a line.
use collab.Base.{refl, false, none, [], ◌∷◌, arith}
use collab.Wire.LiveOutput.{attempt, Chunk, accept}
use collab.Wire.LiveOutput.Eviction.{Hub, Target, headless, stdout}
use collab.Wire.LiveOutput.Account.{Inv}
use collab.Wire.LiveOutput.Limits.{accept-Inv}

abbrev quiet : Target
quiet = record {
  interaction = headless;
  chunks = [];
  seen = [];
  last_stdout = none;
  last_stderr = none;
  bytes = 0;
}

abbrev hub : Hub
hub = record {
  maximum_process_bytes = 2000;
  maximum_target_bytes = 1000;
  targets = ("ATTEMPT:a1", quiet) ∷ [];
  bytes = 0;
  ordinal = 0;
}

hub-Inv : Inv hub
hub-Inv = record { targets = ((refl, omega arith), tt); account = refl; limit = omega arith }

abbrev line : Chunk
line = record {
  stream = stdout;
  sequence = 1;
  source_text = "ok";
  redaction_version = 1;
  truncated = false;
}

accept-Inv_example : Inv (accept (λ c s. "d") hub attempt "a1" line).0
accept-Inv_example = accept-Inv (λ c s. "d") hub attempt "a1" line hub-Inv

abbrev busy : Target
busy = record quiet {
  chunks =
      record {
        stream = stdout;
        sequence = 1;
        text = "ok";
        redaction_version = 1;
        truncated = false;
        gap = false;
        evicted_before = false;
        bytes = 2;
        retained_bytes = 258;
        digest = "d";
        ordinal = 1;
      }
      ∷ [];
  bytes = 258;
}

abbrev filled : Hub
filled = record hub { targets = ("ATTEMPT:a1", busy) ∷ []; bytes = 258; ordinal = 1 }

filled-Inv : Inv filled
filled-Inv = record { targets = ((refl, omega arith), tt); account = refl; limit = omega arith }
