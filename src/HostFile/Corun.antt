-- ===== src/HostFile/Corun.antt =====
-- The program corun (tools/corun/corun.cpp), behind its options: the hosts, the command, and the
-- sessions in which the pods start.
use pla_co_r.Base.{ℕ, Option, none, some, List, [], ◌∷◌}
use pla_co_r.Text.Bytes.{Bytes, codes}
use pla_co_r.Start.Spawn.{Session, command, open_sessions}
use pla_co_r.HostFile.Line.{Host, host_of}
use pla_co_r.HostFile.File.{ParseResult, parsed, Parsed, parsed_of, parse}

-- How the program ends: with a message and `EXIT_FAILURE`, in a division by 0, or behind the start
-- of its sessions.
pub data Exit : Type 0 where
  failed crashed : Exit
  started : List Session → Exit

-- Without the name of a host file there is one host.
unfoldable pub hosts_of : Option (Option (List Bytes)) → Parsed
hosts_of none = parsed_of (host_of (codes "localhost") (codes "22") (codes "4803") ∷ []) parsed
hosts_of (some lines) = parse lines []

abbrev pub host_session : Bytes → Host → Session
host_session cmd h = record { host = h.hostname; port = h.ssh_port; cmd = cmd }

unfoldable pub start_sessions : Option (List Session) → Exit
start_sessions none = crashed
start_sessions (some sessions) = started sessions

unfoldable pub run_on : Bytes → ℕ → Bytes → List Bytes → List Host → ParseResult → Exit
unfolding start_sessions open_sessions command
run_on app_group np rsc_module args hosts parsed =
    start_sessions
      (open_sessions (host_session (command app_group app_group np 0 rsc_module args)) np 0 hosts)
run_on app_group np rsc_module args hosts _ = failed

-- `np` is not negative. `host_file` is `none` if no name is given; the inner `none` is a file that
-- cannot be opened.
unfoldable pub corun : Bytes → ℕ → Bytes → List Bytes → Option (Option (List Bytes)) → Exit
unfolding run_on hosts_of
corun app_group np rsc_module args host_file =
    let p = hosts_of host_file in run_on app_group np rsc_module args p.list p.outcome
