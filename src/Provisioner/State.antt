-- ===== src/Provisioner/State.antt =====
-- The state that survives a reboot (pkg/provisioner/state.go).
use cos_tools.Base.{false, Option, List, [], ◌∷◌, ◌++◌, if◌then◌else◌}
use cos_tools.Base.Errors.{err, state_already_exists, or_fail}
use cos_tools.Text.{Bytes, codes}
use cos_tools.Os.{
  Os, command, read_file, write_file, stat, mkdir, mkdir_all, remove, create_file, close_file,
  gcs_open, gcs_close, gcs_copy,
}
use cos_tools.Os.Action.{
  Action, ◌>>=◌, ◌>>◌, pure, lift, wrap_action, ask, order, deferring, succeeds, for_each,
}
use cos_tools.Provisioner.Address.{parse_address}
use cos_tools.Provisioner.Types.{join_path, Config, StateData, Deps}

-- `encoding/json` on the state, into a state with no value set.
pub record StateJson (Args : Type 0) : Type 0 where
  pub marshal : StateData Args → Option Bytes
  pub unmarshal : Bytes → Option (StateData Args)

unfoldable pub data_path : Bytes → Bytes
data_path dir = join_path dir (codes "state.json")

module _ {Args W : Type 0} (json : StateJson Args) (os : Os W) where
  unfoldable pub read_state : Bytes → Action W (StateData Args)
  read_state dir = do
    text ← wrap_action (ask os (read_file (data_path dir)))
    wrap_action (lift (or_fail (json.unmarshal text)))

  unfoldable pub write_state : Bytes → StateData Args → Action W (Unit {0})
  write_state dir d = do
    text ← wrap_action (lift (or_fail (json.marshal d)))
    wrap_action (order os (write_file (data_path dir) text))

  unfoldable pub load_state : Bytes → Action W (StateData Args)
  load_state dir = read_state dir

module _ {W : Type 0} (os : Os W) where
  -- What the deferred closing returns is dropped: it is written to a variable that is not the
  -- function's result.
  unfoldable pub download_gcs_object : Bytes → Bytes → Bytes → Action W (Unit {0})
  download_gcs_object bucket object local_path = do
    wrap_action (order os (gcs_open bucket object))
    deferring (order os (gcs_close bucket object)) (do
      order os (create_file local_path)
      deferring (order os (close_file local_path))
          (wrap_action (order os (gcs_copy bucket object local_path))))

  unfoldable pub unpack_build_context : Deps → Bytes → Bytes × Bytes → Action W (Unit {0})
  unpack_build_context deps dir (name, address) = do
    (bucket, object) ← lift (parse_address address)
    let tar_path = join_path dir (name ++ codes ".tar")
    wrap_action (download_gcs_object bucket object tar_path)
    let tar_dir = join_path dir name
    order os (mkdir tar_dir)
    wrap_action
        (order os (command (deps.tar_cmd ∷ codes "xf" ∷ tar_path ∷ codes "-C" ∷ tar_dir ∷ []) []))
    order os (remove tar_path)

  unfoldable pub unpack_build_contexts : Deps → Bytes → List (Bytes × Bytes) → Action W (Unit {0})
  unpack_build_contexts deps dir contexts = for_each (unpack_build_context deps dir) contexts

module _ {Args W : Type 0} (json : StateJson Args) (os : Os W) where
  abbrev pub first_state : Config Args → StateData Args
  first_state c = record { config = c; current_step = 0; disk_resize_complete = false }

  -- The part of `initState` behind the test.
  unfoldable pub store_first : Deps → Bytes → Config Args → Action W (StateData Args)
  store_first deps dir c = do
    wrap_action (order os (mkdir_all dir))
    write_state json os dir (first_state c)
    wrap_action (unpack_build_contexts os deps dir c.build_contexts)
    pure (first_state c)

  unfoldable pub init_state : Deps → Bytes → Config Args → Action W (StateData Args)
  init_state deps dir c = do
    exists ← succeeds os (stat (data_path dir))
    if exists then lift (err state_already_exists) else store_first deps dir c
