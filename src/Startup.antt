-- ===== src/Startup.antt =====
-- cmd/proxy/main.go: from the config file to the running state.
-- Flags, logging and the HTTP server are left out.
pub mod Running
mod Tests
use simple_api.Base.{
  not, Option, none, some, [], if◌then◌else◌, ◌==◌, nat_eq, bool_eq, pair_eq, is_empty, Text, codes,
  text_eq,
}
use simple_api.Config.{Config}
use simple_api.Config.Env.{expand}
use simple_api.Config.Validate.{validate}
use simple_api.Indexes.{Indexes, build}
use simple_api.Management.{State, Outside, expanded}

-- What `New` keeps, of the file, its config and the indexes.
abbrev running : Outside → Text → Config → Option Indexes → Option State
unfolding expand
running out file raw none = none
running out file raw (some idx) =
    some (record { raw = raw; cfg = expanded out raw; indexes = idx; file = file })

abbrev start_with : Outside → Text → Option Config → Option State
unfolding expand validate build
start_with out file none = none
start_with out file (some raw) =
    if not (is_empty (validate out.json_valid (expanded out raw)))
    then none
    else running out file raw (build (expanded out raw))

-- `main`, up to the server; none is a fatal exit.
unfoldable pub start : Outside → Text → Option State
unfolding expand validate build
start out file = start_with out file (out.decode file)

abbrev or_default : Option Text → Text
or_default none = codes "127.0.0.1:8317"
or_default (some listen) = if listen == [] then codes "127.0.0.1:8317" else listen

-- The address of the server, of the flag `listen`.
unfoldable pub address : Text → Config → Text
address flag raw = if flag == [] then or_default raw.server.listen else flag
