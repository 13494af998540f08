-- ===== src/Lib.antt =====
-- The provider agent of a compute marketplace, as far as it decides what is stopped, started, rebooted,
-- scrubbed, destroyed, offered, opened to the internet and recognised on a host.
--
-- The agent runs on a Proxmox VE host. It asks Core, the marketplace's control plane, for a view of the
-- machines that should be there, and makes the hypervisor agree. A leased machine may only run while
-- the agent hears from Core: each good view renews a lease, and a machine whose lease has run out is
-- stopped, by the agent's own lease task or, when the agent is dead, by a host timer that reads the
-- lease file. A machine that a view names Absent is torn down: destroyed under a licence, and said gone
-- only on a later listing. All of these use one rule for which guest is which machine: the guest's
-- tags carry the claim's kind and the machine's key, and the first line of its description is the
-- machine's whole stamp.
--
-- Base        Texts as lists of code points, decimal numbers, tests, association lists.
-- Dur         crates/onv-agent-lib/src/dur.rs: durations of a u64 of milliseconds, printed and read
--             (`display`, `from_str`).
-- Names       crates/onv-agent-lib/src/names.rs: the tags, stamps, keys and file names by which the agent
--             knows its own guests and files.
-- Hypervisor  The hypervisor's API as a parameter: a record of calls over an unknown state `W`. A call
--             answers or fails and may change the state; what was asked, and what was answered where a
--             rule depends on it, is kept in a trace. `Call` is the agent's own sequence of calls, which
--             stops at the first failure and keeps what was sent.
-- Leased      crates/onv-driver-proxmox/src/leased.rs: `claimed_guests` (which guests carry a machine's
--             claim, a miss confirmed on every node) and `stop_leased`.
-- RunLease    crates/onv-agent-lib/src/run_lease.rs: the lease file, read strictly.
-- Lease       src/lease.rs: the book of leases: `heard` and `renew` on a view, `expired` and `check` of the
--             lease task, `may_restart` for maintenance, `file_body` and `resumed` for the file.
-- Volumes     src/teardown.rs: the volumes a configuration names, and the number a volume's name carries.
-- Teardown    src/teardown.rs: `licence` (which one guest a delete may destroy), `the_guest`,
--             `stamped_guests`, and the destroy with the hour's cap (`destroy`).
-- Leftover    src/teardown.rs: `volume_left`, what becomes of a volume that is still there.
-- Tombs       src/teardown.rs: tombstones, and a teardown over several passes (`tear_down`, `prove`); the
--             directory of tombstones is a parameter, read and written file by file.
-- FollowUp    src/teardown.rs: `ProofFollowUp`, the early passes for a proof that is owed.
-- Residues    src/teardown.rs: `reap_tombstones`, the retry of `retry_residues`, `outcome`.
-- Restore     crates/onv-core-link/src/restore.rs: the head, restore mode, and `observe` on each view.
-- InstallWatch crates/onv-core-link/src/installwatch.rs: the machines followed while they install.
-- HeldView    src/heldview.rs: the view kept for a restart (`of`, `read`) and the pass at boot (`pass`).
-- Report      crates/onv-core-link/src/report.rs: the period of reports; `poll` of
--             crates/onv-agent-lib/src/timings.rs.
-- Timer       crates/onv-lease-expire/src/lib.rs: one run of the host timer, `pass`, split at its early
--             returns, with its verdicts and exit codes.
-- Privileges  crates/onv-lease-expire/src/lib.rs: `probe`, the check of the timer's own token.
-- Scrub       crates/onv-scrub/src/scrub.rs and, in Scrub.Pass, src/scrub.rs: the guest that wipes a card
--             between two tenants, and the pass that makes, reads and removes such guests; Scrub.Build is
--             the rest of `start_scrub`: the clone, its record in
--             crates/onv-driver-proxmox/src/pending.rs, its configuration and start, and `abandon_clone` of
--             src/instance.rs, which takes away one that was not finished.
-- Cards       src/proxmox.rs: which guests hold a card (`pci_claim_slots`, `resolve_pci_claim`,
--             `accounted_pci`, `claimed_pci`) and which cards may be offered (`may_offer`).
-- Gate        src/proxmox.rs: the nodes to place on (`placement_nodes`, `create_nodes`), the gate before
--             a start (`start_blockers`, `start_when_ready`), `clone_polls`.
-- Reread      src/agent.rs: `seen_now`, Core's view read again just before an act, with `still_running`
--             and `still_absent`.
-- Reboots     crates/onv-driver-proxmox/src/reboots.rs and src/instance.rs: the record of a reboot, and the
--             step that asks for it; in Reboots.Once the machine's story over many passes.
-- Machine     src/instance.rs: `ensure_instance_gated` for a machine that stands already: its interfaces,
--             its start, its stop and its reboot; in Machine.Gated with the re-read as the gate of its start.
-- Opening     crates/onv-hostnet/src/opening.rs: the UDP port each machine has on the host's public side;
--             the configuration (`check`), the agent's book and its file (Opening.Book), and the applier
--             that loads the rules as root (Opening.Rules, Opening.Apply).
-- Ipv4        The addresses of Opening, with the tests on them.
-- Examples    Runs of the models at concrete inputs.
--
-- A text is a list of code points. A u64 or u32 that the source computes with keeps its bound; a clock
-- reading is a number of nanoseconds without one. A hash map is an association list with distinct keys,
-- and a mutex is not modelled: each operation of the book is one critical section of the source. Loops
-- are structural recursion on the list they run over, or on the number of tries the source allows, so
-- there is no fuel. The directory of tombstones
-- and the question whether Core still names a machine Absent answer as they like.
--
-- Not modelled: the self-checks made of residues, the JSON reader and the HTTP client (parameters),
-- the words of log lines and of error messages, the text of the nftables script, the creation of lock
-- files, the lock on clones, and the agent's larger operations (creating and deleting
-- machines, workers, tunnels, images, SDN zones, the join).
pub mod Base
pub mod Cards
pub mod Dur
pub mod Examples
pub mod FollowUp
pub mod Gate
pub mod HeldView
pub mod Hypervisor
pub mod InstallWatch
pub mod Ipv4
pub mod Lease
pub mod Leased
pub mod Leftover
pub mod Machine
pub mod Names
pub mod Opening
pub mod Privileges
pub mod Reboots
pub mod Report
pub mod Reread
pub mod Residues
pub mod Restore
pub mod RunLease
pub mod Scrub
pub mod Teardown
pub mod Timer
pub mod Tombs
pub mod Volumes
