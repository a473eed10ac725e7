-- ===== src/Core/Subscription/Address.antt =====
-- The static addresses of DHCP lines stay distinct over the saves that change a line's access.
use native.Mathlib.Decide.{ℕ_discrete}
use getupnet.Prelude.{
  ℕ, ◌≡◌, refl, sym, ◌≢◌, ◌∙◌, true, not, ◌&&◌, Option, none, some, String, text_eq, eq_iff,
  has_text, or_text, subst, arith,
}
use getupnet.Prelude.Effects.{ok}
use getupnet.Prelude.Rows.{browse, assign, browse-assign}
use getupnet.Prelude.Search.{length-permutation, matching-none}
use getupnet.Database.{Database}
use getupnet.Database.Core.{Subscription, AuthMethod, DhcpMode}
use getupnet.Platform.{Platform}
use getupnet.Core.Subscription.{
  read, update, is_static_dhcp, shares_ip, check_pppoe_credentials, check_dhcp_static_ip,
  check_unique_static_ip,
}
use getupnet.Core.Subscription.Forms.{write_access}

-- Two static DHCP lines do not have the same address.
abbrev pub Distinct : Subscription → Subscription → Type 0
Distinct a b =
    is_static_dhcp a ≡ true
    → is_static_dhcp b ≡ true
    → has_text a.service_ip ≡ true
    → or_text b.service_ip "" ≢ or_text a.service_ip ""

abbrev pub UniqueAddresses : Database → Type 0
UniqueAddresses db =
    (i j : ℕ) (a b : Subscription)
    → browse i db.subscriptions ≡ some a
    → browse j db.subscriptions ≡ some b
    → i ≢ j
    → Distinct a b

has_text-or_text : (o : Option String) → has_text o ≡ not (text_eq (or_text o "") "")
has_text-or_text none = refl
has_text-or_text (some s) = ground (arith, eq_iff s "", eq_iff (or_text (some s) "") "")

Distinct-sym : (a b : Subscription) → Distinct a b → Distinct b a
Distinct-sym a b h sb sa tb e =
    h sa sb (has_text-or_text a.service_ip ∙ rw e (sym (has_text-or_text b.service_ip) ∙ tb))
      (sym e)

module _ ⦃platform : Platform⦄ where
  -- Where the check passes, no other line has the address.
  check_unique-Distinct :
      (i j : ℕ) (db : Database) (a b : Subscription)
      → browse i db.subscriptions ≡ some a
      → browse j db.subscriptions ≡ some b
      → i ≢ j
      → db.sees_sector b.sector_id ≡ true
      → (check_unique_static_ip i db).0 ≡ ok tt
      → Distinct a b
  unfolding check_unique_static_ip read
  check_unique-Distinct i j db a b at_i at_j ne sees passes sa sb has same =
      let p =
        λ (j : ℕ) (other : Subscription). shares_ip i a j other && db.sees_sector other.sector_id in
      let perm = platform.search_perm Subscription p db.subscriptions in
      let none_other = matching-none p j db.subscriptions b in
      ground (
        arith,
        at_i,
        sees,
        none_other,
        length-permutation perm,
        eq_iff (or_text b.service_ip "") (or_text a.service_ip ""),
      )

  check_pppoe_state : (i : ℕ) (db : Database) → (check_pppoe_credentials i db).1 ≡ db
  unfolding check_pppoe_credentials read
  check_pppoe_state i db = ground arith

  check_dhcp_state : (i : ℕ) (db : Database) → (check_dhcp_static_ip i db).1 ≡ db
  unfolding check_dhcp_static_ip read
  check_dhcp_state i db = ground arith

  check_unique_state : (i : ℕ) (db : Database) → (check_unique_static_ip i db).1 ≡ db
  unfolding check_unique_static_ip read
  check_unique_state i db = ground arith

  -- The row that the form writes.
  abbrev accessed : AuthMethod → DhcpMode → Option String → Subscription → Subscription
  accessed auth mode ip rec = record rec { auth_method = auth; dhcp_mode = mode; service_ip = ip }

  abbrev written : ℕ → AuthMethod → DhcpMode → Option String → Database → Database
  written i auth mode ip db = record db {
    subscriptions = assign i (accessed auth mode ip) db.subscriptions;
  }

  write_access-eq :
      (i : ℕ) (auth : AuthMethod) (mode : DhcpMode) (ip : Option String) (db : Database)
      → (write_access i auth mode ip db).0 ≡ ok tt
      → ((write_access i auth mode ip db).1 ≡ written i auth mode ip db)
        × ((check_unique_static_ip i (written i auth mode ip db)).0 ≡ ok tt)
  unfolding write_access update
  write_access-eq i auth mode ip db passes =
      let db' = written i auth mode ip db in
      ground (arith, check_pppoe_state i db', check_dhcp_state i db', check_unique_state i db')

  other_row :
      (i j : ℕ) (f : Subscription → Subscription) (db : Database) {row : Subscription}
      → i ≢ j
      → browse j (assign i f db.subscriptions) ≡ some row
      → browse j db.subscriptions ≡ some row
  other_row i j f db ne found = ground (arith, browse-assign i j f db.subscriptions)

  -- For a user who sees the lines of every sector, a save of a line's access that goes through leads
  -- from a database where static DHCP lines have distinct addresses to such a database.
  pub write_access-UniqueAddresses :
      (i : ℕ) (auth : AuthMethod) (mode : DhcpMode) (ip : Option String) (db : Database)
      → ((sector : ℕ) → db.sees_sector sector ≡ true)
      → UniqueAddresses db
      → (write_access i auth mode ip db).0 ≡ ok tt
      → UniqueAddresses (write_access i auth mode ip db).1
  write_access-UniqueAddresses i auth mode ip db sees unique passes =
      let (state, checked) = write_access-eq i auth mode ip db passes in
      subst UniqueAddresses (sym state) λ j k a b at_j at_k ne. elim (ℕ_discrete i j) [
        | yes here ↦
            check_unique-Distinct i k (written i auth mode ip db) a b (rw (← here) at at_j) at_k
              (λ e. ne (sym here ∙ e)) (sees b.sector_id) checked
        | no not_j ↦ elim (ℕ_discrete i k) [
          | yes here ↦ Distinct-sym b a (
              check_unique-Distinct i j (written i auth mode ip db) b a (rw (← here) at at_k) at_j
                not_j (sees a.sector_id) checked)
          | no not_k ↦
              unique j k a b (other_row i j (accessed auth mode ip) db not_j at_j)
                (other_row i k (accessed auth mode ip) db not_k at_k) ne
        ]
      ]
