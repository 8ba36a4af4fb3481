-- ===== src/Tests/Sessions.antt =====
-- Two files, the second after a WAIT, that a small environment can receive.
use study_and_development_of.Base.{ℕ, ◌<◌, ◌≡◌, refl, pos, [], codes, length, false, arith, equal}
use study_and_development_of.Libc.Format.{fmt_d, fmt_04d, snprintf}
use study_and_development_of.Server.Transfer.{sending_text}
use study_and_development_of.Client.Request.{local_log_dir}
use study_and_development_of.Client.Transmission.{Local, local_data_file, remove_file_command}
use study_and_development_of.Wire.Cycle.{NameFits}
use study_and_development_of.Wire.Session.{Item, item_file, Fits}
use study_and_development_of.Tests.Demo.{fresh, no_space-IsWord, zeros}
use study_and_development_of.Tests.Ground.{numbered, ground_world}

abbrev pub seventh : Item
seventh = record { delays = 0; tr = numbered 7; contents = codes "x y z\n"; out = codes "x y z\n" }

abbrev pub eighth : Item
eighth = record { delays = 1; tr = numbered 8; contents = codes "0 0\n"; out = codes "0 0\n" }

abbrev pub start_local : Local
start_local = record {
  b = fresh [];
  rec = zeros 48;
  transmission_dir = [];
  folder = [];
  tr = numbered 0;
  orig_len = pos 0;
  rec_len = pos 0;
}

pub numbered-NameFits :
    (n : ℕ) → length (remove_file_command (numbered n)) < 128 → NameFits (numbered n)
numbered-NameFits n cmd = record {
  word = no_space-IsWord b'2' (codes "0230405-101112") refl;
  text = omega arith;
  short = omega arith;
  cmd = cmd;
}

pub cmd_fits :
    (length (remove_file_command (numbered 7)) < 128)
    × (length (remove_file_command (numbered 8)) < 128)
unfolding remove_file_command fmt_d
cmd_fits = omega arith

pub seventh-Fits : (n : ℕ) → 1 < n → Fits ground_world 48 n seventh
unfolding sending_text fmt_d
seventh-Fits n enough = record {
  names = numbered-NameFits 7 cmd_fits.0;
  contents_small = omega arith;
  out_small = omega arith;
  line = omega arith;
  reply = omega arith;
  waiting = omega arith;
  packed = refl;
}

pub eighth-Fits : (n : ℕ) → 1 < n → Fits ground_world 48 n eighth
unfolding sending_text fmt_d
eighth-Fits n enough = record {
  names = numbered-NameFits 8 cmd_fits.1;
  contents_small = omega arith;
  out_small = omega arith;
  line = omega arith;
  reply = omega arith;
  waiting = omega arith;
  packed = refl;
}

pub names_differ : equal (item_file eighth) (item_file seventh) ≡ false
unfolding equal snprintf local_data_file local_log_dir fmt_d fmt_04d
names_differ = refl
