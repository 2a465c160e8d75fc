-- ===== src/Configuration/Validation.antt =====
-- validate, validateAndNormalizeWebsocketSettings and validateAndNormalizeOtherSettings. Arguments:
-- what cpp-pcp-client says of the certificate and of the key, and the values that get_UUID gives.
pub mod Frame
pub mod WebSocket
pub mod Directories
pub mod SpoolDir
pub mod Valid
use Prim.Native.String.{◌++◌}
use text.Mathlib.Text.{starts_with}
use pxp_agent.Base.{
  String, Bool, true, false, not, ◌&&◌, Option, none, some, List, [], ◌∷◌, if◌then◌else◌, is_blank,
}
use pxp_agent.Exception.{
  Exception, Result, ok, err, aborted, guarded, configuration_error, connection_config_error,
  unknown,
}
use pxp_agent.Exception.Stateful.{Stateful, pure, raise, gets, ◌>>=◌, ◌>>◌}
use pxp_agent.Libraries.{Libraries}
use pxp_agent.Configuration.{
  string_value, as_string, as_bool, Configuration, HorseWhisperer, get_flag, set_flag,
}

-- getCommonNameFromCert and validatePrivateKeyCertPair, which throw connection_config_error.
pub record PcpClient : Type 0 where
  pub common_name : String → Result String
  pub key_cert_pair : String → String → Result (Unit {0})

-- The catch clause around their calls.
unfoldable pub catch_config_error : Result (Unit {0}) → Result (Unit {0})
catch_config_error (err (connection_config_error w)) = err (configuration_error w)
catch_config_error r = r

after_name : Result String → Result (Unit {0}) → Result (Unit {0})
after_name (ok name) r = r
after_name (err e) r = err e
after_name aborted r = aborted

unfoldable pub check_certificate : PcpClient → String → String → Result (Unit {0})
unfolding catch_config_error after_name
check_certificate p key cert =
    catch_config_error (after_name (p.common_name cert) (p.key_cert_pair key cert))

module _ ⦃L : Libraries⦄ ⦃H : HorseWhisperer⦄ where
  open L use {
    Disk, status, exists, file_readable, is_directory, is_regular_file, create_directories, created,
    remove_all, slash, parent_path, tilde_expand,
  }

  -- The checks of one of the three files, which give its expanded path.
  unfoldable pub check_file : Disk → String → String → Result String
  check_file d option val =
      let path = tilde_expand val in
      if is_blank val
      then err (configuration_error (option ++ " value must be defined"))
      else guarded (status d path) (
          if not (exists d path)
          then err (configuration_error (option ++ (" file '" ++ (path ++ "' not found"))))
          else if not (file_readable d path)
          then err (configuration_error (option ++ (" file '" ++ (path ++ "' not readable"))))
          else ok path)

  unfoldable pub check_uri : String → Result (Unit {0})
  check_uri uri =
      if is_blank uri
      then err (configuration_error "broker-ws-uri value must be defined")
      else if not (starts_with uri "wss://")
      then err (configuration_error "broker-ws-uri value must start with wss://")
      else ok tt

  unfoldable pub validate_web_socket_settings : PcpClient → Disk → Stateful Configuration (Unit {0})
  unfolding check_uri check_file check_certificate set_flag
  validate_web_socket_settings p d = do
    uri ← gets (get_flag as_string "broker-ws-uri")
    gets (λ c. check_uri uri)
    ca ← gets (get_flag as_string "ssl-ca-cert")
    cert ← gets (get_flag as_string "ssl-cert")
    key ← gets (get_flag as_string "ssl-key")
    ca' ← gets (λ c. check_file d "ssl-ca-cert" ca)
    cert' ← gets (λ c. check_file d "ssl-cert" cert)
    key' ← gets (λ c. check_file d "ssl-key" key)
    gets (λ c. check_certificate p key' cert')
    set_flag "ssl-ca-cert" (string_value ca')
    set_flag "ssl-cert" (string_value cert')
    set_flag "ssl-key" (string_value key')

  unfoldable pub check_directory : Disk → String → String → Result (Unit {0})
  check_directory d option path = guarded (status d path) (
      if not (exists d path)
      then err (configuration_error (option ++ (" '" ++ (path ++ "'' does not exist"))))
      else if not (is_directory d path)
      then err (configuration_error (option ++ (" '" ++ (path ++ "' is not a directory"))))
      else ok tt)

  normalize_value : Disk → String → String → Stateful Configuration (Unit {0})
  unfolding check_directory set_flag
  normalize_value d option val =
      if is_blank val
      then pure tt
      else (gets (λ c. check_directory d option (tilde_expand val))
          >> set_flag option (string_value (tilde_expand val)))

  -- An iteration of the loop over the three directories.
  unfoldable pub normalize : Disk → String → Stateful Configuration (Unit {0})
  unfolding normalize_value
  normalize d option = gets (get_flag as_string option) >>= normalize_value d option

  -- The path of the do-while loop that no file has; none if all the UUIDs are taken.
  unfoldable pub unused_path : Disk → String → List String → Option String
  unused_path d dir [] = none
  unused_path d dir (uuid ∷ uuids) =
      let rest = unused_path d dir uuids in
      let tmp_path = slash dir uuid in if exists d tmp_path then rest else some tmp_path

  -- What the condition of that loop throws, on the paths that it is evaluated for.
  loop_status : Disk → String → List String → Result (Unit {0})
  loop_status d dir [] = ok tt
  loop_status d dir (uuid ∷ uuids) =
      let rest = loop_status d dir uuids in
      let tmp_path = slash dir uuid in
      guarded (status d tmp_path) (if exists d tmp_path then rest else ok tt)

  -- remove_all in the try block: `is_writable` has been set.
  removed : Disk → Result Disk → Result (Bool × Disk)
  removed d (ok e) = ok (true, e)
  removed d (err unknown) = err unknown
  removed d (err x) = ok (true, d)
  removed d aborted = aborted

  made : String → Bool → Disk → Result Disk → Result (Bool × Disk)
  unfolding removed
  made tmp_path is_new d (ok e) =
      if is_new then removed e (remove_all e tmp_path) else ok (false, e)
  made tmp_path is_new d (err unknown) = err unknown
  made tmp_path is_new d (err x) = ok (false, d)
  made tmp_path is_new d aborted = aborted

  -- `is_writable`, with the disk after the test; a loop that finds no path does not end.
  unfoldable pub test_directory : Disk → Option String → Result (Bool × Disk)
  unfolding made
  test_directory d none = aborted
  test_directory d (some tmp_path) =
      made tmp_path (created d tmp_path) d (create_directories d tmp_path)

  writable : String → Bool × Disk → Result Disk
  writable spool_dir (is_writable, d) =
      if is_writable
      then ok d
      else err (configuration_error ("--spool-dir '" ++ (spool_dir ++ "' is not writable")))

  unfoldable pub check_spool_dir : List String → Disk → String → Stateful Configuration Disk
  unfolding loop_status unused_path test_directory writable
  check_spool_dir uuids d spool_dir =
      if is_blank spool_dir
      then raise (configuration_error "spool-dir must be defined")
      else (gets (λ c. loop_status d spool_dir uuids)
          >> (gets (λ c. test_directory d (unused_path d spool_dir uuids)) >>= λ r.
              gets (λ c. writable spool_dir r)))

  pub check_pid_dir : Disk → String → Result (Unit {0})
  check_pid_dir d pid_dir = guarded (status d pid_dir) (
      if not (exists d pid_dir)
      then err (
          configuration_error
            ("the PID directory '" ++ (pid_dir ++ "' does not exist; cannot create PID file")))
      else if not (is_directory d pid_dir)
      then err (configuration_error ("the PID directory '" ++ (pid_dir ++ "' is not a directory")))
      else ok tt)

  unfoldable pub check_pid_file : Disk → String → Result (Unit {0})
  unfolding check_pid_dir
  check_pid_file d pid_file = guarded (status d pid_file) (
      if exists d pid_file && not (is_regular_file d pid_file)
      then err (configuration_error ("the PID file '" ++ (pid_file ++ "' is not a regular file")))
      else check_pid_dir d (parent_path pid_file))

  pub normalize_pid_file : Disk → Bool → Stateful Configuration (Unit {0})
  unfolding check_pid_file set_flag
  normalize_pid_file d foreground = if foreground then pure tt else do
    val ← gets (get_flag as_string "pidfile")
    gets (λ c. check_pid_file d (tilde_expand val))
    set_flag "pidfile" (string_value (tilde_expand val))

  pub validate_pid_file : Disk → Stateful Configuration Disk
  unfolding normalize_pid_file
  validate_pid_file d = do
    foreground ← gets (get_flag as_bool "foreground")
    normalize_pid_file d foreground
    pure d

  -- The disk comes back with the test directory's traces.
  unfoldable pub validate_other_settings : List String → Disk → Stateful Configuration Disk
  unfolding normalize check_spool_dir validate_pid_file
  validate_other_settings uuids d = do
    normalize d "modules-dir"
    normalize d "modules-config-dir"
    normalize d "spool-dir"
    spool_dir ← gets (get_flag as_string "spool-dir")
    d' ← check_spool_dir uuids d spool_dir
    validate_pid_file d'

  set_valid : Disk → Stateful Configuration Disk
  set_valid d c = (ok d, record c { valid = true })

  unfoldable pub validate : PcpClient → List String → Disk → Stateful Configuration Disk
  unfolding validate_web_socket_settings validate_other_settings set_valid
  validate p uuids d =
      validate_web_socket_settings p d >> validate_other_settings uuids d >>= set_valid
