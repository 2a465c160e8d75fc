-- ===== src/Modules/Status/Metadata.antt =====
-- What ActionMetadata reads from a file that holds a JSON document.
use pxp_agent.Base.{String, true, false, ◌≡◌, some, arith, ℤ, pos}
use pxp_agent.Exception.{ok}
use pxp_agent.Libraries.{Libraries}
use pxp_agent.Json.{get_flag, get_number}
use pxp_agent.Modules.Status.{read_metadata}

module _ ⦃L : Libraries⦄ where
  open L use {Json, Disk, exists, read, parse}

  pub read_metadata-completed :
      (d : Disk) (file txt : String) (j : Json) (n : ℤ)
      → exists d file ≡ true
      → read d file ≡ some txt
      → parse txt ≡ some j
      → get_flag j "completed" ≡ ok true
      → get_number j "exitcode" ≡ ok n
      → read_metadata d file ≡ some (record { exitcode = n; completed = true })
  unfolding read_metadata
  read_metadata-completed d file txt j n hx hr hp hf hn = ground arith

  pub read_metadata-incomplete :
      (d : Disk) (file txt : String) (j : Json)
      → exists d file ≡ true
      → read d file ≡ some txt
      → parse txt ≡ some j
      → get_flag j "completed" ≡ ok false
      → read_metadata d file ≡ some (record { exitcode = pos 0; completed = false })
  unfolding read_metadata
  read_metadata-incomplete d file txt j hx hr hp hf = ground arith
