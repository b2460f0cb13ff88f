-- ===== src/Apply/Records.antt =====
-- writeReason of internal/apply/dns.go: whether a DNS record has to be written.
pub mod Written
mod Examples
use regied.Prelude.{String, Bool, true, false, not, Option, none, some, ◌=ˢ◌, ◌⋅◌, if◌then◌else◌}
use regied.Ddns.{Record, Writer, record_eq, last}

-- the cases after the writer was asked for what it wrote last
reason_after : Option Record → Record → Bool × String
unfolding record_eq
reason_after none r = (
  true, "nothing has been written here since this process started, so what it holds is not known",
)
reason_after (some written) r =
    if not (written.content =ˢ r.content)
    then (true, "the address moved from " ⋅ written.content)
    else if not (record_eq written r)
    then (true, "a declared property changed")
    else (false, "this process wrote it, and nothing has moved since")

unfoldable pub write_reason : Writer → Record → Bool × String
unfolding reason_after last
write_reason w r = reason_after (last w r) r
