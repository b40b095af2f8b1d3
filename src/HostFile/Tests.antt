-- ===== src/HostFile/Tests.antt =====
-- A host file with four hosts and a line that is none.
use pla_co_r.Base.{◌≡◌, refl, ◌↔◌, false, none, some, none-ne-some, List, [], ◌∷◌, ◌++◌}
use pla_co_r.Text.Bytes.{Bytes, codes}
use pla_co_r.HostFile.Line.{Host, host_of, parse_line}
use pla_co_r.HostFile.File.{parsed_of, failed_at, parse}
use pla_co_r.HostFile.Written.{no_colon, named, with_ssh_port, with_spread_port, with_ports}
use pla_co_r.HostFile.Accepted.{Says, parse_line-Says}
use pla_co_r.Start.Spawn.{open_sessions, command, append_args}
use pla_co_r.HostFile.Corun.{corun, run_on, hosts_of, start_sessions, started, host_session}
use pla_co_r.HostFile.Lines.{AllSay, parse-first_bad}

abbrev lines : List Bytes
lines = codes "node-1" ∷ codes " a.b : 2022" ∷ codes "c::0" ∷ codes "D9:22:4803 " ∷ []

abbrev hosts : List Host
hosts =
    host_of (codes "node-1") (codes "22") (codes "4803")
    ∷ host_of (codes "a.b") (codes "2022") (codes "4803")
    ∷ host_of (codes "c") (codes "22") (codes "0")
    ∷ host_of (codes "D9") (codes "22") (codes "4803")
    ∷ []

-- A port does not begin with 0.
abbrev bad : Bytes
bad = codes "e:022"

line_test :
    parse_line (codes " a.b : 2022") ≡ some (host_of (codes "a.b") (codes "2022") (codes "4803"))
unfolding parse_line pla_co_r.Text.Filename.take
line_test = refl

lines-AllSay : AllSay lines hosts
lines-AllSay = (
  (
    named (codes "node-1") no_colon,
    (refl, (refl, (refl, (refl, (refl, (refl, (refl, tt))))))),
    refl,
    refl,
  ),
  (
    (
      with_ssh_port (codes "a.b") (codes "2022") false,
      ((refl, (refl, (refl, (refl, tt)))), refl),
      refl,
      refl,
    ),
    (
      (with_spread_port (codes "c") (codes "0"), ((refl, (refl, tt)), refl), refl, refl),
      (
        (
          with_ports (codes "D9") (codes "22") (codes "4803"),
          ((refl, (refl, (refl, tt))), refl, refl),
          refl,
          refl,
        ),
        tt,
      ),
    ),
  ),
)

bad-Says_none : ¬ ((h : Host) × Says bad h)
unfolding parse_line
bad-Says_none (h, s) = none-ne-some h ((parse_line-Says bad h).1 s)

parse_line-Says_example :
    (parse_line (codes "D9::") ≡ some (host_of (codes "D9") (codes "22") (codes "4803")))
    ↔ Says (codes "D9::") (host_of (codes "D9") (codes "22") (codes "4803"))
parse_line-Says_example =
    parse_line-Says (codes "D9::") (host_of (codes "D9") (codes "22") (codes "4803"))

parse-first_bad_example :
    parse (some (lines ++ bad ∷ codes "f" ∷ [])) [] ≡ parsed_of hosts (failed_at 5)
parse-first_bad_example =
    parse-first_bad lines hosts [] bad (codes "f" ∷ []) lines-AllSay bad-Says_none

corun_test :
    corun (codes "A") 1 (codes "m.so") (codes "x" ∷ []) none
    ≡ started (
        host_session
          (codes "corx A A 1 0 m.so x")
          (host_of (codes "localhost") (codes "22") (codes "4803"))
        ∷ [])
unfolding corun run_on hosts_of start_sessions open_sessions command append_args
    pla_co_r.Text.Decimal.to_string pla_co_r.Text.Decimal.digits
corun_test = refl
