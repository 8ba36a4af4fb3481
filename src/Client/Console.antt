-- ===== src/Client/Console.antt =====
-- app/client/io_lib.c: the keyboard and the screen of the client, through curses.
use study_and_development_of.Base.{
  ℕ, ◌-◌, ◌%◌, ltb, ℤ, pos, negsuc, is_pos, is_negsuc, Bytes, ◌∷◌, ◌++◌, codes, Bool, false,
  if◌then◌else◌,
}
use study_and_development_of.Libc.Format.{fmt_d}
use study_and_development_of.World.{Prog, ◌>>=◌, ◌>>◌, pure}
use study_and_development_of.Common.Info.{TrInfo}

-- The calls that change the screen; text is given as it is printed.
pub data Draw : Type 0 where
  initscr noecho nodelay endwin refresh clrtoeol : Draw
  move : ℕ → ℕ → Draw
  printw : Bytes → Draw
  mvprintw : ℕ → ℕ → Bytes → Draw

-- What the client uses of curses and of the clock: getch gives a key or ERR, which is -1, and the
-- values of the calls that draw are not used. strftime gives the local time in the given format.
pub record Console (S : Type 0) : Type 0 where
  pub getch : Prog S ℤ
  pub screen : Draw → Prog S (Unit {0})
  pub strftime : Bytes → Prog S Bytes

-- The conversion of an `int` to a signed `char`.
unfoldable pub to_char : ℤ → ℤ
to_char (pos n) = let low = n % 256 in if ltb low 128 then pos low else negsuc (255 - low)
to_char (negsuc n) = let low = n % 256 in if ltb low 128 then negsuc low else pos (255 - low)

module _ {S : Type 0} (c : Console S) where
  unfoldable pub get_user_input : Prog S ℤ
  unfolding to_char
  get_user_input =
      c.getch >>= λ key. let ch = to_char key in if is_negsuc ch 0 then pure (negsuc 0) else pure ch

  unfoldable pub print_command_info : ℕ → ℕ → Bool → Prog S (Unit {0})
  print_command_info y x refresh_flag =
      c.screen (mvprintw y x (codes "Available Commands:\n"))
      >> (c.screen (
            printw (
              codes
                "(1) : Start the logging system\n            \r(2) : Stop the logging system\n            \r(3) : Start the transmission\n            \r(4) : Stop the transmission\n            \r(5) : Quit"))
          >> (if refresh_flag then c.screen refresh else pure tt))

  unfoldable pub init_io : Prog S (Unit {0})
  unfolding print_command_info
  init_io =
      c.screen initscr
      >> (c.screen noecho
          >> (c.screen nodelay
              >> (c.screen (printw (codes "LIDAR Control System\n\n"))
                  >> (print_command_info 5 0 false >> c.screen refresh))))

  unfoldable pub end_io : Prog S (Unit {0})
  end_io = c.screen endwin

  -- "TRANSMISSION:    %s    %d/%d"
  abbrev pub transmission_text : TrInfo → Bytes
  transmission_text tr =
      codes "TRANSMISSION:    "
      ++ (tr.d.first ++ (codes "    " ++ (fmt_d tr.f.first ++ (b'/' ∷ fmt_d tr.f.last))))

  unfoldable pub print_info : ℤ → ℤ → TrInfo → Prog S (Unit {0})
  print_info logger_status thread_status tr =
      c.screen (move 2 0)
      >> (c.screen clrtoeol
          >> (c.screen refresh
              >> (c.screen (
                    mvprintw 2 0
                      (if is_pos logger_status 0 then codes "LOGGER: OFF" else codes "LOGGER: ON"))
                  >> (c.screen (move 3 0)
                      >> (c.screen clrtoeol
                          >> (c.screen (
                                mvprintw 3 0 (
                                  if is_pos thread_status 1
                                  then transmission_text tr
                                  else codes "TRANSMISSION: OFF"))
                              >> c.screen refresh))))))
