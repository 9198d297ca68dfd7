-- ===== src/Dump/Target.antt =====
-- `create_output_file` of src/bin/evtx_dump.rs. The file system, the paths and the prompt are the
-- environment's; an error of theirs is `none`.
use evtx.Base.{
  ◌≡◌, refl, Bool, true, false, Option, none, some, Str, if◌then◌else◌, ◌&&◌, ◌⊎◌, Bool-cases, inl,
  inr,
}
use evtx.Base.Result.{Result, ok, err, ◌>>=◌, ok_or, >>=-ok}

pub record FileSystem : Type 1 where
  pub State : Type 0
  -- `Path::is_dir`, `exists` and `parent`.
  pub is_dir : Str → State → Bool
  pub exists : Str → State → Bool
  pub parent : Str → Option Str
  -- `File::create`, which truncates the file, and `fs::create_dir_all`.
  pub create : Str → State → Option State
  pub create_dir_all : Str → State → Option State
  -- dialoguer's `Confirm::interact`: the answer, and what it changes.
  pub interact : State → Option Bool × State

pub data TargetError : Type 0 where
  is_directory : Str → TargetError
  cancelled : TargetError
  no_prompt : TargetError
  is_root : TargetError
  io_error : TargetError

module _ ⦃fs : FileSystem⦄ where
  abbrev pub created : Str → fs.State → Result TargetError fs.State
  created path s = ok_or (fs.create path s) io_error

  -- The answer to the prompt.
  abbrev pub confirmed : Str → Option Bool × fs.State → Result TargetError fs.State
  confirmed path (some true, s) = created path s
  confirmed path (some false, s) = err cancelled
  confirmed path (none, s) = err no_prompt

  abbrev pub in_parent : Str → Option Str → fs.State → Result TargetError fs.State
  in_parent path (some parent) s = do
    s' ← if fs.exists parent s then ok s else ok_or (fs.create_dir_all parent s) io_error
    created path s'
  in_parent path none s = err is_root

  unfoldable pub create_output_file : Str → Bool → fs.State → Result TargetError fs.State
  create_output_file path prompt s =
      if fs.is_dir path s
      then err (is_directory path)
      else if fs.exists path s
      then if prompt then confirmed path (fs.interact s) else created path s
      else in_parent path (fs.parent path) s

  -- The last step is the creation of the file.
  abbrev Creates : Str → fs.State → fs.State → Type 0
  Creates path before s' = fs.create path before ≡ some s'

  created-Creates : (path : Str) (s s' : fs.State) → created path s ≡ ok s' → Creates path s s'
  created-Creates path s s' h = option_ok (fs.create path s) s' h
    where
      option_ok : (o : Option fs.State) (s' : fs.State) → ok_or o io_error ≡ ok s' → o ≡ some s'
      option_ok none s' h = absurd cc
      option_ok (some u) s' h = cc

  in_parent-Creates :
      (path : Str) (parent : Option Str) (s s' : fs.State)
      → in_parent path parent s ≡ ok s'
      → (before : fs.State) × Creates path before s'
  in_parent-Creates path none s s' h = absurd cc
  in_parent-Creates path (some parent) s s' h =
      let (before, e, k) =
        >>=-ok (if fs.exists parent s then ok s else ok_or (fs.create_dir_all parent s) io_error)
          (created path) s' h in
      (before, created-Creates path before s' k)

  confirmed-Creates :
      (path : Str) (answer : Option Bool × fs.State) (s' : fs.State)
      → confirmed path answer ≡ ok s'
      → (answer.0 ≡ some true) × Creates path answer.1 s'
  confirmed-Creates path (some true, s) s' h = (refl, created-Creates path s s' h)
  confirmed-Creates path (some false, s) s' h = absurd cc
  confirmed-Creates path (none, s) s' h = absurd cc

-- Where `create_output_file` gives a file, the path was no directory, the file was created last, and either
-- no file was there, or no prompt was wanted, or the user has agreed.
pub create_output_file-asks :
    ⦃fs : FileSystem⦄ (path : Str) (prompt : Bool) (s s' : fs.State)
    → create_output_file path prompt s ≡ ok s'
    → (fs.is_dir path s ≡ false)
      × ((before : fs.State) × (fs.create path before ≡ some s'))
      × (((fs.exists path s && prompt) ≡ false) ⊎ ((fs.interact s).0 ≡ some true))
unfolding create_output_file
create_output_file-asks ⦃fs⦄ path prompt s s' h = elim (Bool-cases (fs.is_dir path s)) [
  | inl e ↦
      let k : ◌≡◌ {A = Result TargetError fs.State} (err (is_directory path)) (ok s') = rw e at h in
      absurd cc
  | inr e ↦ elim (Bool-cases (fs.exists path s)) [
    | inl g ↦ elim (Bool-cases prompt) [
      | inl p ↦
          let (agreed, made) = confirmed-Creates path (fs.interact s) s' (rw (e, g, p) at h) in
          (e, ((fs.interact s).1, made), inr agreed)
      | inr p ↦ (e, (s, created-Creates path s s' (rw (e, g, p) at h)), inl (rw (g, p) refl))
    ]
    | inr g ↦ (e, in_parent-Creates path (fs.parent path) s s' (rw (e, g) at h), inl (rw g refl))
  ]
]
