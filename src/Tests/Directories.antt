-- ===== src/Tests/Directories.antt =====
-- MakePath at a concrete path.
use study_and_development_of.Base.{◌≡◌, refl, inl, pos, Bytes, List, [], ◌∷◌, codes, arith}
use study_and_development_of.World.{done}
use study_and_development_of.Common.Paths.{make_path}
use study_and_development_of.Common.Paths.Makes.{MakesDirs, way, make_path-made}
use study_and_development_of.Tests.Demo.{Env, demo, idle}

abbrev made : Env → List Bytes
made s = s.commands

demo-MakesDirs : MakesDirs demo made
demo-MakesDirs = record {
  after = λ path s. record s { commands = path ∷ s.commands };
  made = λ path s. inl refl;
  asked-after = λ path s. refl;
}

make_path-made_example :
    (t : Env) × (make_path demo 256 (codes "rec_data/20230405/data") idle ≡ done (pos 0) t)
    × (made t
        ≡ codes "rec_data/20230405/data" ∷ codes "rec_data/20230405/" ∷ codes "rec_data/" ∷ [])
unfolding way
make_path-made_example =
    make_path-made demo made demo-MakesDirs 256 b'r' (codes "ec_data/20230405/data") idle
      (omega arith)
