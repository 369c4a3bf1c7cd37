-- ===== src/Worker/Uploads.antt =====
-- `uploadDirectory` of worker/src/storage.ts: the files of a directory are uploaded side by side, each
-- with its own retries. An upload is split at its awaits; `turns` says whose await ends next, and what
-- it leaves open ends file by file. What the other uploads do after the first of them gave up is left
-- out, as the pauses between attempts are.
pub mod Alone
pub mod Turns
pub mod Stored
use escld.Prelude.{
  ℕ, zero, suc, ◌-◌, ◌*◌, String, Bool, true, false, List, [], ◌∷◌, map, if◌then◌else◌, any, Result,
  ok, err,
}
use escld.Worker.Storage.{S3, attempts, content_type, key_in, path_in}

-- The upload of one file, with the attempts that are left after the one that comes next or is under
-- way. It waits for its next attempt to start, or holds what it read and puts it next.
pub data Task (Body : Type 0) : Type 0 where
  waiting : (left : ℕ) → Task Body
  holding : (left : ℕ) → Body → Task Body
  uploaded gave_up : Task Body

abbrev pub has_given_up : {Body : Type 0} → Task Body → Bool
has_given_up gave_up = true
has_given_up _ = false

abbrev pub is_uploaded : {Body : Type 0} → Task Body → Bool
is_uploaded uploaded = true
is_uploaded _ = false

-- After a failure.
abbrev pub retry : {Body : Type 0} → ℕ → Task Body
retry zero = gave_up
retry (suc left) = waiting left

module _ {W Body : Type 0} (s3 : S3 W Body) (local_dir s3_prefix : String) where
  abbrev pub after_read : ℕ → Result Body × W → Task Body × W
  after_read left (ok body, w) = (holding left body, w)
  after_read left (err, w) = (retry left, w)

  abbrev pub after_put : ℕ → Result (Unit {0}) × W → Task Body × W
  after_put left (ok u, w) = (uploaded, w)
  after_put left (err, w) = (retry left, w)

  unfoldable pub turn : String → Task Body → W → Task Body × W
  turn file (waiting left) w =
      if s3.aborted w
      then (gave_up, w)
      else after_read left (s3.read_file (path_in local_dir file) w)
  turn file (holding left body) w =
      after_put left
        (s3.put_object (key_in s3_prefix file) body (content_type (s3.extension file)) w)
  turn file uploaded w = (uploaded, w)
  turn file gave_up w = (gave_up, w)

  abbrev pub Tasks : Type 0
  Tasks = List (String × Task Body)

  -- The turn of the file at this place.
  unfoldable pub turn_at : ℕ → Tasks → W → Tasks × W
  unfolding turn
  turn_at i [] w = ([], w)
  turn_at zero ((file, task) ∷ tasks) w =
      let (task', w') = turn file task w in ((file, task') ∷ tasks, w')
  turn_at (suc i) ((file, task) ∷ tasks) w =
      let (tasks', w') = turn_at i tasks w in ((file, task) ∷ tasks', w')

  unfoldable pub turns_of : (fuel : ℕ) → String → Task Body → W → Task Body × W
  unfolding turn
  turns_of zero file task w = (task, w)
  turns_of (suc fuel) file task w =
      let (task', w') = turn file task w in turns_of fuel file task' w'

  -- An upload ends after two turns for each attempt.
  unfoldable pub alone : String → Task Body → W → Task Body × W
  unfolding turns_of
  alone file task w = turns_of (2 * attempts) file task w

  unfoldable pub one_by_one : Tasks → W → Result (Unit {0}) × W
  unfolding alone
  one_by_one [] w = (ok tt, w)
  one_by_one ((file, task) ∷ tasks) w =
      let (task', w') = alone file task w in
      let others = one_by_one tasks w' in if is_uploaded task' then others else (err, w')

  -- `Promise.all`: it fails as soon as one upload has given up.
  unfoldable pub side_by_side : (turns : List ℕ) → Tasks → W → Result (Unit {0}) × W
  unfolding one_by_one turn_at
  side_by_side [] tasks w =
      if any (λ t. has_given_up t.1) tasks then (err, w) else one_by_one tasks w
  side_by_side (i ∷ turns) tasks w =
      let (tasks', w') = turn_at i tasks w in
      let later = side_by_side turns tasks' w' in
      if any (λ t. has_given_up t.1) tasks then (err, w) else later

  abbrev pub start_all : List String → Tasks
  start_all files = map (λ file. (file, waiting (attempts - 1))) files

  abbrev pub upload_all : (turns : List ℕ) → Result (List String) × W → Result (Unit {0}) × W
  upload_all turns (err, w) = (err, w)
  upload_all turns (ok files, w) = side_by_side turns (start_all files) w

  unfoldable pub upload_directory : (turns : List ℕ) → W → Result (Unit {0}) × W
  unfolding side_by_side
  upload_directory turns w = upload_all turns (s3.read_dir local_dir w)
