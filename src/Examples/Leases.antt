-- ===== src/Examples/Leases.antt =====
-- Readings, looks and a restart of the lease task, for a machine that the view wants running.
use omnuv_provider.Base.{
  ◌↔◌, ◌≡◌, refl, true, false, [], ◌∷◌, Option, none, some, ◌>>=◌, if◌then◌else◌, List, any, inl,
}
use omnuv_provider.Base.Text.{Text, codes, same, split, trim, trim_start}
use omnuv_provider.Base.Assoc.{Assoc, get, Unique}
use omnuv_provider.Base.Decimal.{parse_uint, scan}
use omnuv_provider.RunLease.{Written, all_read, read_body, first_unnamed}
use omnuv_provider.Lease.{
  Asked, Reading, Lease, Book, InstanceSpec, running, absent, seconds, told_by, parse, from_words,
  apply, is_kept, expired, sort, may_restart, check, resumed, body,
}
use omnuv_provider.Lease.Renewal.{lists, runs, lease_after_all, get-apply}
use omnuv_provider.Lease.Expiry.{
  member, RunOut, expired-member, check-may_restart, StampOut, check-Licensed,
}
use omnuv_provider.Lease.Resume.{Reaches, mapped, book_after, resumed-Reaches}
use omnuv_provider.Leased.Sent.{Licensed}
use omnuv_provider.Examples.Host.{machine_id, with_machine, running_host}

abbrev held : Lease
held = record { deadline = seconds 60; wall = seconds 1060; stopped = false }

abbrev leases : Assoc Lease
leases = (machine_id, held) ∷ []

abbrev book : Book
book = record { pending = none; leases = leases }

abbrev asked : Asked
asked = record { at = seconds 30; wall = seconds 1030 }

-- Sixty seconds for the machine; and nothing for any machine.
abbrev listed : Reading
listed = record { asked = asked; header = some (codes "60 ab12") }

abbrev unlisted : Reading
unlisted = record { asked = asked; header = none }

abbrev wanted : List InstanceSpec
wanted = record { id = machine_id; intent = running } ∷ []

abbrev unwanted : List InstanceSpec
unwanted = record { id = machine_id; intent = absent } ∷ []

leases-Unique : Unique leases
unfolding get
leases-Unique = (refl, tt)

is_wanted : runs wanted machine_id ≡ true
unfolding same
is_wanted = refl

is_unwanted : runs unwanted machine_id ≡ false
unfolding same
is_unwanted = refl

header_read : told_by listed ≡ some (seconds 60, machine_id ∷ [])
unfolding told_by parse from_words split parse_uint scan
header_read = refl

not_listed : lists (told_by unlisted) machine_id ≡ false
unfolding told_by
not_listed = refl

in_header : any (λ i. same i machine_id) (machine_id ∷ []) ≡ true
unfolding same
in_header = refl

held_there : get machine_id leases ≡ some held
unfolding get same
held_there = refl

get-apply_example : get machine_id (apply listed wanted leases) ≡ (
    lease_after_all asked (told_by listed) wanted machine_id (get machine_id leases) >>= λ l.
    if is_kept asked wanted machine_id l then some l else none)
get-apply_example = get-apply listed wanted machine_id leases leases-Unique

expired-member_example :
    member machine_id (expired (seconds 61) book) ≡ true
    ↔ ((l : Lease) × (get machine_id leases ≡ some l) × RunOut (seconds 61) l)
expired-member_example = expired-member (seconds 61) machine_id book leases-Unique

is_expired_now : member machine_id (expired (seconds 61) book) ≡ true
unfolding expired sort same
is_expired_now = refl

check-may_restart_example :
    may_restart machine_id (seconds 62) (check with_machine (seconds 61) book running_host).0
    ≡ may_restart machine_id (seconds 62) book
check-may_restart_example =
    check-may_restart with_machine (seconds 61) (seconds 62) machine_id book running_host

check-Licensed_example :
    Licensed
      (StampOut with_machine (seconds 61) book)
      (check with_machine (seconds 61) book running_host).2.trace
check-Licensed_example = check-Licensed with_machine (seconds 61) book running_host leases-Unique tt

abbrev written_lease : Written
written_lease = record { id = machine_id; until_unix = 1060 }

abbrev reader : Text → Option (List Written)
reader t = some (written_lease ∷ [])

file_read : read_body reader (codes "[…]") ≡ all_read (written_lease ∷ [])
unfolding read_body first_unnamed trim trim_start
file_read = refl

resumed-Reaches_example : Reaches (mapped 5 (seconds 1000) written_lease) (
    get machine_id
      (book_after book (resumed reader (body (codes "[…]")) 5 (seconds 1000) book)).leases)
resumed-Reaches_example =
    resumed-Reaches reader (codes "[…]") (written_lease ∷ []) 5 (seconds 1000) book written_lease
      file_read (inl refl)
