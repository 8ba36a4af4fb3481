-- ===== src/Server/Process.antt =====
-- app/server/server.c: main, and what the TCP library calls when it fails.
use study_and_development_of.Base.{ℤ, pos, is_neg, Bytes, List, [], ◌∷◌, some, if◌then◌else◌}
use study_and_development_of.Libc.Scan.{scan_d, assigned}
use study_and_development_of.World.{Prog, ◌>>=◌, pure, leave}

-- atoi, for the numbers that `int` can hold.
abbrev pub atoi : Bytes → ℤ
atoi text = assigned (scan_d (some text)).0 (pos 0)

-- signal(SIGCHLD, SIG_IGN), and create_tcp_server, which calls server_handler for every connection and
-- comes back only if it fails or the handler has returned 0.
pub record Listener (S : Type 0) : Type 0 where
  pub ignore_children : Prog S (Unit {0})
  pub create_tcp_server : Bytes → ℤ → Prog S ℤ

-- The handler of the server for errors of the TCP library.
unfoldable pub error_handler : {S A : Type 0} → Bytes → Prog S A
error_handler message = leave (pos 1)

module _ {S : Type 0} (n : Listener S) where
  -- The name of the program stands in front of its arguments.
  unfoldable pub server_main : List Bytes → Prog S ℤ
  unfolding scan_d
  server_main (program ∷ ip_address ∷ port ∷ []) = n.ignore_children >>= λ _.
      n.create_tcp_server ip_address (atoi port) >>= λ ret.
      if is_neg ret then leave (pos 1) else pure (pos 0)
  server_main _ = leave (pos 1)
