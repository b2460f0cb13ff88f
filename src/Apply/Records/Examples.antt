-- ===== src/Apply/Records/Examples.antt =====
-- The theorems on the records, at an input.
use regied.Prelude.{◌≡◌, false, not, []}
use regied.Ddns.{Record, new_writer, holds}
use regied.Apply.Disk.{Disk}
use regied.Apply.Records.{write_reason}
use regied.Apply.Records.Written.{write_reason-holds}

abbrev home : Record
home = record {
  zone = "example.net";
  name = "home.example.net";
  kind = "AAAA";
  content = "2001:db8::1";
  proxied = false;
  ttl = 300;
}

abbrev blank : Disk
blank = record { files = []; commands = [] }

write_reason-holds_example : (write_reason new_writer home).0 ≡ not (holds new_writer home)
write_reason-holds_example = write_reason-holds new_writer home
