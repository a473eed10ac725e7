-- ===== src/Preloader/Again.antt =====
-- What a second run of the preloader over a router does.
use getupnet.Prelude.{
  ◌≡◌, refl, true, false, some, List, [], ◌∷◌, ◌++◌, String, ◌⧺◌, arith, inl, inr, Bool-cases,
  if◌then◌else◌,
}
use getupnet.Prelude.Effects.{Result, ok, err, is_ok}
use getupnet.Database.Network.{Command, Attributes}
use getupnet.Preloader.{
  RouterApi, command, found, api_exec, run, routeros_find, find_in_all, unless_found,
}

-- The query that `routeros_find` sends.
abbrev pub query : String → String → String → Command
query path field value = command path (("?" ⧺ field, some value) ∷ [])

module _ ⦃api : RouterApi⦄ where
  -- A router answers a query with what was found, after a certain command, or again.
  abbrev pub Finds : Command → List Command → Type 0
  Finds print sent =
      (items : List Attributes) × (api.answer sent print ≡ ok items) × (found items ≡ true)

  -- What RouterOS does with an item that it has accepted: queries find it from then on, and a query
  -- changes nothing.
  pub record Remembers (print add : Command) : Type 0 where
    pub after_add :
        (sent : List Command) → is_ok (api.answer sent add) ≡ true → Finds print (sent ++ add ∷ [])
    pub after_query : (sent : List Command) → Finds print sent → Finds print (sent ++ print ∷ [])

  Result-cases : {A : Type 0} (r : Result A) → is_ok r ≡ true → (a : A) × (r ≡ ok a)
  Result-cases (ok a) h = (a, refl)
  Result-cases (err e) h = cc

  -- What a first run sends, by the answer to its query.
  unless_found-first :
      (path field value add : String) (attributes : Attributes) (sent : List Command)
      {items : List Attributes}
      → api.answer sent (query path field value) ≡ ok items
      → let asked = sent ++ query path field value ∷ [] in
        (unless_found path field value add attributes sent).1
        ≡ (if found items then asked else asked ++ command add attributes ∷ [])
  unfolding unless_found run api_exec routeros_find find_in_all
  unless_found-first path field value add attributes sent {items} answered =
      ground (arith, answered)

  unless_found-sent :
      (path field value add : String) (attributes : Attributes) (sent : List Command)
      → Finds (query path field value) sent
      → unless_found path field value add attributes sent
        ≡ (ok tt, sent ++ query path field value ∷ [])
  unfolding unless_found run api_exec routeros_find find_in_all
  unless_found-sent path field value add attributes sent (items, answered, some_found) =
      ground (arith, answered, some_found)

  unless_found-accepted :
      (path field value add : String) (attributes : Attributes) (sent : List Command)
      {items : List Attributes}
      → api.answer sent (query path field value) ≡ ok items
      → found items ≡ false
      → (unless_found path field value add attributes sent).0 ≡ ok tt
      → is_ok (api.answer (sent ++ query path field value ∷ []) (command add attributes)) ≡ true
  unfolding unless_found run api_exec routeros_find find_in_all
  unless_found-accepted path field value add attributes sent {items} answered none_found goes =
      ground (arith, answered, none_found, goes)

  -- On a router that answers the query and remembers what it accepted, a step that adds an item
  -- unless a query finds it is done once: where a first run has gone through, a second one right
  -- after it goes through as well and sends nothing but the query.
  pub unless_found-again :
      (path field value add : String) (attributes : Attributes) (sent : List Command)
      → Remembers (query path field value) (command add attributes)
      → is_ok (api.answer sent (query path field value)) ≡ true
      → (unless_found path field value add attributes sent).0 ≡ ok tt
      → let first = (unless_found path field value add attributes sent).1 in
        unless_found path field value add attributes first
        ≡ (ok tt, first ++ query path field value ∷ [])
  unless_found-again path field value add attributes sent remembers answers goes =
      let print = query path field value in
      let (items, answered) = Result-cases (api.answer sent print) answers in
      let first = unless_found-first path field value add attributes sent answered in
      elim (Bool-cases (found items)) [
        | inl some_found ↦
            let state : (unless_found path field value add attributes sent).1 ≡ sent ++ print ∷ [] =
              rw first (rw some_found refl) in
            rw state (
              unless_found-sent path field value add attributes (sent ++ print ∷ [])
                (remembers.after_query sent (items, answered, some_found)))
        | inr none_found ↦
            let asked = sent ++ print ∷ [] in
            let added = asked ++ command add attributes ∷ [] in
            let state : (unless_found path field value add attributes sent).1 ≡ added =
              rw first (rw none_found refl) in
            let accepted =
              unless_found-accepted path field value add attributes sent answered none_found goes in
            rw state (
              unless_found-sent path field value add attributes added
                (remembers.after_add asked accepted))
      ]
