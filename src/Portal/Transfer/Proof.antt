-- ===== src/Portal/Transfer/Proof.antt =====
-- The files of a customer's transfer.
use getupnet.Prelude.{
  ℕ, suc, ◌+◌, ◌≡◌, refl, ap, sym, ◌∙◌, true, false, Bool-cases, inl, inr, none, some, List, [],
  ◌∷◌, ◌++◌, String, length, length-append, has_text, or_text, All, arith, if◌then◌else◌,
}
use mathlib.Core.List.{append_assoc, append-nil}
use getupnet.Prelude.Effects.{ok, for_each}
use getupnet.Prelude.Rows.{browse, assign, ids, browse-assign}
use getupnet.Database.{Database}
use getupnet.Database.Billing.{BankTransferPayment}
use getupnet.Platform.{Platform}
use getupnet.Billing.Transfer.{read, write, is_draft, check_attachments}
use getupnet.Portal.Transfer.{File, linked, new_attachment, attach, attach_raw, attach_encoded}

-- How many files have a name.
abbrev pub named : List File → ℕ
named [] = 0
named (file ∷ files) = if has_text file.filename then suc (named files) else named files

module _ ⦃platform : Platform⦄ where
  abbrev pub without_attachments : Database → Database
  without_attachments db = record db { attachments = [] }

  attach_lem :
      (t : ℕ) (name datas : String) (db : Database)
      → platform.store_datas datas ≡ none
      → attach t name datas db ≡ new_attachment t name datas db
  unfolding attach ids
  attach_lem t name datas db accepted = rw (attach, accepted) refl

  attach_raw_lem :
      (t : ℕ) (file : File) (db : Database)
      → platform.store_datas file.content ≡ none
      → attach_raw t file db
        ≡ (ok tt, (new_attachment t (or_text file.filename "") file.content db).1)
  unfolding attach_raw
  attach_raw_lem t file db accepted =
      rw (attach_lem t (or_text file.filename "") file.content db accepted) refl

  pub raw_lem :
      (t : ℕ) (files : List File) (db : Database)
      → All (λ file. platform.store_datas file.content ≡ none) files
      → let (r, after) = for_each files (attach_raw t) db in
        (r ≡ ok tt)
        × (without_attachments after ≡ without_attachments db)
        × (length after.attachments ≡ length db.attachments + length files)
  unfolding for_each
  raw_lem t [] db h = (refl, refl, omega arith)
  raw_lem t (file ∷ files) db (h, hs) =
      let one = (new_attachment t (or_text file.filename "") file.content db).1 in
      let (goes, kept, grown) = raw_lem t files one hs in
      rw (attach_raw_lem t file db h)
        (goes, kept, omega (arith, grown, length-append db.attachments _))

  -- The database after a named file was stored once more and linked.
  linked_db : ℕ → File → Database → Database
  linked_db t file db = record db {
    attachments =
        (new_attachment t (or_text file.filename "") (platform.encode file.content)
          db).1.attachments;
    transfers = assign t (linked (platform.new_id (ids db.attachments))) db.transfers;
  }

  attach_encoded_named :
      (t : ℕ) (file : File) (db : Database) {rec : BankTransferPayment}
      → browse t db.transfers ≡ some rec
      → is_draft rec.state ≡ true
      → has_text file.filename ≡ true
      → attach_encoded t file db ≡ (ok tt, linked_db t file db)
  unfolding attach_encoded write check_attachments read linked_db
  attach_encoded_named t file db {rec} found draft there =
      let name = or_text file.filename "" in
      let stored =
        attach_lem t name (platform.encode file.content) db
          (platform.store_datas-encode file.content) in
      let row = browse-assign t t (linked (platform.new_id (ids db.attachments))) db.transfers in
      rw (there, stored) (ground (arith, found, draft, row))

  attach_encoded_nameless :
      (t : ℕ) (file : File) (db : Database)
      → has_text file.filename ≡ false
      → attach_encoded t file db ≡ (ok tt, db)
  unfolding attach_encoded
  attach_encoded_nameless t file db nameless = rw nameless refl

  -- What a turn over every file leaves: so many attachments more, each linked to the transfer.
  pub record Linked (t : ℕ) (rec : BankTransferPayment) (n : ℕ) (db after : Database) : Type 0 where
    pub rest :
        record after { attachments = []; transfers = [] }
        ≡ record db { attachments = []; transfers = [] }
    pub more : List ℕ
    pub more_length : length more ≡ n
    pub row :
        browse t after.transfers ≡ some (record rec { attachment_ids = rec.attachment_ids ++ more })
    pub grown : length after.attachments ≡ length db.attachments + n

  linked_on :
      (t : ℕ) (file : File) (db after : Database) (n : ℕ) {rec : BankTransferPayment}
      → browse t db.transfers ≡ some rec
      → Linked t (linked (platform.new_id (ids db.attachments)) rec) n (linked_db t file db) after
      → Linked t rec (suc n) db after
  unfolding linked_db
  linked_on t file db after n {rec} found on =
      let a = platform.new_id (ids db.attachments) in
      record {
        rest = on.rest;
        more = a ∷ on.more;
        more_length = ap suc on.more_length;
        row =
            on.row
            ∙ ap (λ l. some (record rec { attachment_ids = l }))
                (append_assoc rec.attachment_ids (a ∷ []) on.more);
        grown = omega (arith, on.grown, length-append db.attachments _);
      }

  pub encoded_lem :
      (t : ℕ) (files : List File) (db : Database) {rec : BankTransferPayment}
      → browse t db.transfers ≡ some rec
      → is_draft rec.state ≡ true
      → let (r, after) = for_each files (attach_encoded t) db in
        (r ≡ ok tt) × Linked t rec (named files) db after
  unfolding for_each
  encoded_lem t [] db {rec} found draft = (
    refl,
    record {
      rest = refl;
      more = [];
      more_length = refl;
      row = found ∙ ap (λ l. some (record rec { attachment_ids = l })) (sym (append-nil _));
      grown = omega arith;
    },
  )
  encoded_lem t (file ∷ files) db {rec} found draft = elim (Bool-cases (has_text file.filename)) [
    | inl there ↦
        let a = platform.new_id (ids db.attachments) in
        let next : browse t (linked_db t file db).transfers ≡ some (linked a rec) =
          unfold linked_db in ground (arith, found, browse-assign t t (linked a) db.transfers) in
        let (goes, on) =
          encoded_lem t files (linked_db t file db) {rec = linked a rec} next draft in
        rw (attach_encoded_named t file db {rec = rec} found draft there, there)
          (goes, linked_on t file db _ (named files) {rec = rec} found on)
    | inr nameless ↦
        rw (attach_encoded_nameless t file db nameless, nameless)
          (encoded_lem t files db {rec = rec} found draft)
  ]
