-- ===== src/Tests/Whole.antt =====
-- A whole directory in a small environment.
use study_and_development_of.Base.{
  ◌<◌, ◌≡◌, ◌≢◌, refl, subst, ℤ, pos, Bytes, [], ◌∷◌, codes, length, All, some, false, arith, equal,
}
use study_and_development_of.Libc.Format.{fmt_d, fmt_04d, snprintf}
use study_and_development_of.World.{Opened, done, entries, enoent, unreadable}
use study_and_development_of.World.Keeps.{done-state}
use study_and_development_of.Common.Info.{TrInfo}
use study_and_development_of.Common.Stream.{Pending}
use study_and_development_of.Common.Paths.{dir_exists}
use study_and_development_of.Client.Request.{local_log_dir}
use study_and_development_of.Client.Transmission.{Local, local_data_file, transmission_loop}
use study_and_development_of.Wire.Frame.{Untouched}
use study_and_development_of.Wire.Sending.{active_dir}
use study_and_development_of.Wire.Remaining.{Asked, asked_file, AskedFits, AskedApart}
use study_and_development_of.Wire.Finish.{empty_line, dir_removed_line, complete_dir}
use study_and_development_of.Wire.Session.{Item, item_file, There, session_answers}
use study_and_development_of.Wire.Session.Ending.{ending_answers, Knows, Remembers, Ends}
use study_and_development_of.Wire.Session.Directory.{transmission_loop-directory}
use study_and_development_of.Tests.Demo.{
  Env, demo, unread, file, idle, emit, store, deliver, fresh-Pending, zeros,
}
use study_and_development_of.Tests.Ground.{
  stamp, numbered, moved, rename_from, with_active, ground_world, shared, equal-differ, demo-Works,
}
use study_and_development_of.Tests.Sessions.{
  seventh, eighth, start_local, seventh-Fits, eighth-Fits, names_differ,
}
use study_and_development_of.Tests.Endings.{
  dir, pcd_data, pcd_info, other_data, other_info, four, order_lem, four-AskedFits, four-AskedApart,
}

module _ (tr : TrInfo) where
  abbrev pub Known : Env → Type 0
  Known = Knows shared tr

  Known-deliver :
      (tail stream : Bytes) (s u : Env) {a : ℤ × Bytes}
      → Known s
      → deliver tail stream s ≡ done a u
      → Known u
  Known-deliver tail [] s u h e = subst Known (done-state e) h
  Known-deliver tail (c ∷ cs) s u h e =
      let h' : Known (record s { unread = cs }) = h in subst Known (done-state e) h'

  pub Known-calls : Untouched ground_world Known []
  Known-calls = record {
    send = λ m. record {
      keeps = λ s a u h e. let h' : Known (emit m s) = h in subst Known (done-state e) h';
    };
    receive = λ array. record { keeps = λ s a u h e. Known-deliver (0 ∷ []) s.unread s u h e };
    binary_receive = λ array. record { keeps = λ s a u h e. Known-deliver [] s.unread s u h e };
    opens = λ other differs. record {
      keeps = λ s a u h e. let h' : Known (store other [] s) = h in subst Known (done-state e) h';
    };
    writes = λ other text differs. record {
      keeps = λ s a u h e. let h' : Known (store other text s) = h in subst Known (done-state e) h';
    };
  }

-- A directory that is there is renamed.
rename_from-moved :
    (found : Opened) (old new : Bytes) (s : Env)
    → dir_exists (record demo { opendir = λ path u. found }) old s ≡ pos 1
    → rename_from found old new s ≡ done (pos 0) (moved old new s)
unfolding dir_exists
rename_from-moved (entries _) old new s there = refl
rename_from-moved enoent old new s there = cc
rename_from-moved unreadable old new s there = cc

pub rename-moved :
    (old new : Bytes) (s : Env)
    → dir_exists ground_world old s ≡ pos 1
    → ground_world.rename old new s ≡ done (pos 0) (moved old new s)
unfolding dir_exists
rename-moved old new s there = rename_from-moved (s.dirs old) old new s there

abbrev pub demo-Remembers : Remembers ground_world shared unread demo-Works.shared
demo-Remembers = record {
  get_set = λ tr s. refl;
  calls = Known-calls;
  renamed = moved;
  rename_lem = rename-moved;
  unread-renamed = λ old new s. refl;
}

pub dir_is : dir ≡ active_dir (numbered 7)
unfolding snprintf
dir_is = refl

pub ends_fit : (length (empty_line (numbered 7)) < 48) × (length (dir_removed_line stamp) < 48)
unfolding fmt_d
ends_fit = omega arith

four-Ends : Ends ground_world 48 (zeros 160) (numbered 7) four
four-Ends = record {
  line = ends_fit.0;
  reply = ends_fit.1;
  order = order_lem;
  fit = subst (λ d. All (AskedFits ground_world (zeros 160) d) four) dir_is four-AskedFits;
  apart = subst (λ d. AskedApart d four) dir_is four-AskedApart;
}

-- None of the four is the file of an item.
abbrev pub NoneIs : Bytes → Item → Type 0
NoneIs d x = All (λ y. asked_file d y ≢ item_file x) four

differ_from :
    (x : Item) (y : Asked)
    → equal (asked_file dir y) (item_file x) ≡ false
    → asked_file dir y ≢ item_file x
differ_from x y h = equal-differ (asked_file dir y) (item_file x) h

pub seventh_apart : NoneIs dir seventh
unfolding equal snprintf local_data_file local_log_dir fmt_d fmt_04d
seventh_apart = (
  differ_from seventh pcd_data refl,
  (
    differ_from seventh pcd_info refl,
    (differ_from seventh other_data refl, (differ_from seventh other_info refl, tt)),
  ),
)

pub eighth_apart : NoneIs dir eighth
unfolding equal snprintf local_data_file local_log_dir fmt_d fmt_04d
eighth_apart = (
  differ_from eighth pcd_data refl,
  (
    differ_from eighth pcd_info refl,
    (differ_from eighth other_data refl, (differ_from eighth other_info refl, tt)),
  ),
)

-- Both files, a WAIT, and the end.
abbrev whole : Env
whole = record idle {
  unread = session_answers (seventh ∷ eighth ∷ []) (ending_answers 1 (numbered 7) four (codes "X"));
  dirs = with_active;
}

-- The local directory of both is there.
pub seventh-There :
    (s : Env) → s.dirs ≡ with_active → There ground_world demo-Works.files.can_write s seventh
unfolding dir_exists snprintf equal local_log_dir
seventh-There s e = (rw e refl, refl)

pub eighth-There :
    (s : Env) → s.dirs ≡ with_active → There ground_world demo-Works.files.can_write s eighth
unfolding dir_exists snprintf equal local_log_dir
eighth-There s e = (rw e refl, refl)

-- The local directory has its final name.
abbrev moved_away : Env → Env
moved_away = moved (active_dir (numbered 7)) (complete_dir stamp)

transmission_loop-directory_example :
    (l' : Local) × (u : Env) × (transmission_loop ground_world shared 5
        (zeros 160)
        start_local
        whole
      ≡ transmission_loop ground_world shared 2 (zeros 160) l' (moved_away u))
    × ((file u (item_file seventh) ≡ some (codes "x y z\n"))
        × ((file u (item_file eighth) ≡ some (codes "0 0\n")) × Unit {0}))
    × All (λ y. file u (asked_file (active_dir (numbered 7)) y) ≡ some y.contents) four
    × Pending unread l'.b (moved_away u) (codes "X")
transmission_loop-directory_example =
    transmission_loop-directory ground_world shared unread file demo-Works demo-Remembers 2 1
      seventh (eighth ∷ []) four (zeros 160) (codes "X") start_local whole (omega arith)
      ((refl, refl), tt) (seventh-Fits 3 (omega arith), (eighth-Fits 3 (omega arith), tt))
      (seventh-There whole refl, (eighth-There whole refl, tt)) (refl, (refl, (refl, (refl, tt))))
      ((equal-differ (item_file eighth) (item_file seventh) names_differ, tt), (tt, tt)) four-Ends
      (
        subst (λ d. NoneIs d seventh) dir_is seventh_apart,
        (subst (λ d. NoneIs d eighth) dir_is eighth_apart, tt),
      )
      (omega arith) (omega arith) (fresh-Pending [] whole)
