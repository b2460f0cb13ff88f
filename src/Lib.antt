-- ===== src/Lib.antt =====
-- regied is a daemon that turns a declaration of a router's network into files and commands on one
-- host. A declaration is loaded and validated (internal/config), rendered into files for networkd,
-- nftables, dnsmasq and pppd (internal/render), and compared with the host; the comparison is a plan,
-- which an apply stages (files) and commits (commands), once per turn (internal/apply). DNS records
-- that follow the host's addresses are written at a provider (internal/ddns).
--
-- What is modelled, by file of the model:
-- Prelude and its children: Go's texts, paths, maps and sorting, over native numbers and texts.
-- Diff: internal/apply/diff.go, lineEdits and hunksOf. The table of lengths is built row by row
--   from the end, as in the code, and the walk reads it; both are structural in the lists. Diff.Sides
--   and Diff.Optimal hold the proofs.
-- Config.Derive: internal/config/derive.go, the routing tables and marks of the egress route
--   policies. An allocator keeps the numbers that are taken; its search runs on fuel of five more
--   than there are taken numbers, since at most four more are refused as reserved.
-- Config.Returns: deriveForwardReturns of the same file, and deriveRouting as a whole.
-- Ddns: internal/ddns/writer.go, the writer's maps and the write of a record. Its provider is the
--   interface of the file, over any world.
-- Apply.Types: the data of internal/apply/plan.go, owed.go, dns.go and host.go, with the
--   descriptions of steps. A file mode is its number; a text is a text.
-- Apply.Services and Apply.Steps: services.go and Engine.steps of plan.go, what a plan would run.
--   What the host is asked meanwhile (systemd, the links) is in `Probes`.
-- Apply.Host: the interfaces of host.go as one record of functions over a world, with the laws that
--   the file system documents. An error is its text, and nil is `none`.
-- Apply.Firewall: firewall and setsToWrite of plan.go; Apply.Records: writeReason of dns.go.
-- Apply.Comparing: compare, reclaim, hide and the rules of the owned directories in plan.go.
-- Apply.Owed and Apply.Settling: owed.go, the steps that an earlier turn did not get to run. The
--   YAML text of the file is a library's: `Codec`, with the law that it reads what it wrote.
-- Apply.Staging, Apply.Commit and Apply.Turn: apply.go, the record of the accepted declaration and
--   the states of turn.go. The plan that Go changes in place is handed on as a value, with the writer
--   of the engine and the world. Fields of a result that no caller reads here are left out.
-- Apply.Unattended: unattendedPlan of turn.go. The clock is part of the world, in nanoseconds, and the
--   text of a time is a parameter.
-- Apply.Daemon and its children: serve.go, the loop of the resident process: a function for each thing that it does,
--   and its rounds as a step relation (Apply.Daemon.Steps). What it calls of the engine is one record
--   of functions over a world, with the laws that turn.go gives them.
-- Apply.Disk is a host in memory on which the theorems are applied; Examples hold the runs.
--
-- Api and its children: internal/apis/v1alpha1, the types of a declaration with their defaults, and
--   what they use of net/netip (Api.Netip), which is a value and a length for an address. A pointer
--   is an option and a Go string type a text. Decoding from YAML is left out, and what it makes sure
--   of is said at the types.
-- Config.Model, Config.Problem and Config.Resolve: config.go, problem.go and the index and the
--   references of validate.go. The index is a list of entries in the order of the document. A check
--   is a value beside the problems that it appends (Prelude.Logged).
-- Config.Checks and its children: the check of each kind and those between resources. A resource on
--   the stack of the search for cycles is its position in the document; the search runs on fuel of
--   one more than there are resources, since no resource is on the stack twice.
-- Config.Validate: Validate as a whole, up to the configuration that is handed on.
-- Render.Nftables and its children: internal/render/nftables, the ruleset as a value and as its text.
--   What the renderer could not turn into rules is what its value is logged with.
-- Samples: config/example.yaml as a value, and the golden ruleset of the repository.
--
-- A context that is cancelled shows only as an error of the call that it was passed to. A text is
-- lowered as ASCII is, and a character outside of ASCII is quoted as it is: the names and messages of
-- a declaration in other letters are the only ones that Go could print differently. What is not
-- modelled: the renderers for networkd, dnsmasq and pppd, decoding and loading, the arithmetic of
-- delegated prefixes, the probes of the kernel that a plan is made from beside the files, the report
-- of a turn, the sockets of the control path and of netlink, the command line, and the
-- implementations of the host's and the provider's interfaces, which are system calls and HTTP.
pub mod Prelude
pub mod Diff
pub mod Api
pub mod Config
pub mod Samples
pub mod Render
pub mod Ddns
pub mod Apply
