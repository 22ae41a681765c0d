-- ===== src/Store/Laws.antt =====
-- What every handler of the store has in common: it reads, edits and writes the whole file.
use angry_box.Prelude.{
  ◌∙◌, String, List, [], Option, some, find_by, upsert, find_by-upsert, ◌=s◌, if◌then◌else◌, ◌≡◌,
  refl, sym, ap, true, arith, Bool, false,
}
use angry_box.Store.{
  new_store_file, query, ask, found, StoreFile, StoreError, Result, ok, err, holds, Disk, bump,
  answer, write_store, write_edited, edit_read, update, Content, absent, unreadable,
}

-- What a write that succeeds has done with the edited file.
abbrev pub Wrote : Disk → StoreFile → Disk → Type 0
Wrote d sf d' = (d' ≡ record d { content = holds (bump sf) }) × (d.writable (bump sf) ≡ true)

module _ (d : Disk) {d' : Disk} where
  pub write_store-err : {e : StoreError} (sf : StoreFile) → write_store sf d ≡ (err e, d') → d' ≡ d
  write_store-err sf h = ground arith

  pub write_store-ok : (sf : StoreFile) → write_store sf d ≡ (ok tt, d') → Wrote d sf d'
  write_store-ok sf h = ground arith

  write_edited-err :
      {e : StoreError} (r : Result StoreFile) → write_edited r d ≡ (err e, d') → d' ≡ d
  write_edited-err (ok sf) h = write_store-err sf h
  write_edited-err (err e) h = sym (ap (λ p. p.1) h)

  write_edited-ok :
      (r : Result StoreFile)
      → write_edited r d ≡ (ok tt, d')
      → (sf : StoreFile) × (r ≡ ok sf) × Wrote d sf d'
  write_edited-ok (ok sf) h = (sf, refl, write_store-ok sf h)
  write_edited-ok (err e) h = ground arith

  edit_read-err :
      {e : StoreError} (f : StoreFile → Result StoreFile) (r : Result StoreFile)
      → edit_read f r d ≡ (err e, d')
      → d' ≡ d
  edit_read-err f (ok sf) h = write_edited-err (f sf) h
  edit_read-err f (err e) h = sym (ap (λ p. p.1) h)

  edit_read-ok :
      (f : StoreFile → Result StoreFile) (r : Result StoreFile)
      → edit_read f r d ≡ (ok tt, d')
      → (sf : StoreFile) × (sf' : StoreFile) × (r ≡ ok sf) × (f sf ≡ ok sf') × Wrote d sf' d'
  edit_read-ok f (ok sf) h = let (sf', e, w) = write_edited-ok (f sf) h in (sf, sf', refl, e, w)
  edit_read-ok f (err e) h = ground arith

  module _ (missing : Result StoreFile) (f : StoreFile → Result StoreFile) where
    -- A handler that fails leaves the disk as it found it.
    pub update-err : {e : StoreError} → update missing f d ≡ (err e, d') → d' ≡ d
    unfolding update
    update-err h = edit_read-err f (answer missing d.content) h

    -- A handler that succeeds has read a file, and the edited file stands on the disk, with the
    -- next revision.
    pub update-ok :
        update missing f d ≡ (ok tt, d')
        → (sf : StoreFile) × (sf' : StoreFile) × (answer missing d.content ≡ ok sf)
          × (f sf ≡ ok sf')
          × Wrote d sf' d'
    unfolding update
    update-ok h = edit_read-ok f (answer missing d.content) h

-- The value of a result.
pub ok-injective {ℓ} : {A : Type ℓ} {a b : A} → ok a ≡ ok b → a ≡ b
ok-injective h = cc

pub query-holds :
    {A : Type 0} (f : StoreFile → Result A) (r : Result A) (d : Disk) {sf : StoreFile}
    → d.content ≡ holds sf
    → query r f d ≡ f sf
unfolding query
query-holds f r d h = ap (ask r f) h

-- What a handler has read, a query of the same disk finds.
pub query-answer :
    {A : Type 0} (f : StoreFile → Result A) (r : Result A) (d : Disk) {sf : StoreFile}
    → r ≡ f new_store_file
    → answer (ok new_store_file) d.content ≡ ok sf
    → query r f d ≡ f sf
unfolding query
query-answer f r d {sf = sf} start read = go d.content read
  where
    go : (c : Content) → answer (ok new_store_file) c ≡ ok sf → ask r f c ≡ f sf
    go absent h = start ∙ ap f (ok-injective h)
    go unreadable h = absurd (cc)
    go (holds t) h = ap f (ok-injective h)

pub answer-holds :
    (e : StoreError) (c : Content) (sf : StoreFile) → answer (err e) c ≡ ok sf → c ≡ holds sf
answer-holds e absent sf h = absurd (cc)
answer-holds e unreadable sf h = absurd (cc)
answer-holds e (holds t) sf h = ap holds (ok-injective h)

-- A table of the store: its rows, their keys, and the edit that writes a row.
pub record IsTable {A : Type 0} (key : A → String) (table : StoreFile → List A)
    (put : A → StoreFile → Result StoreFile) : Type 0 where
  pub empty : table new_store_file ≡ []
  pub bumped : (sf : StoreFile) → table (bump sf) ≡ table sf
  pub written :
      (a : A) (sf sf' : StoreFile) → put a sf ≡ ok sf' → table sf' ≡ upsert key a (table sf)

module _ {A : Type 0} (key : A → String) (table : StoreFile → List A)
    (put : A → StoreFile → Result StoreFile) (t : IsTable key table put)
    (missing : String → StoreError) where
  abbrev get : String → Disk → Result A
  get k = query (err (missing k)) (λ sf. found (missing k) (find_by key k (table sf)))

  found-if :
      (e : StoreError) (b : Bool) (a : A) (o : Option A)
      → found e (if b then some a else o) ≡ (if b then ok a else found e o)
  found-if e true a o = refl
  found-if e false a o = refl

  -- A lookup after a write that succeeded finds the written row under its key, and under every other
  -- key what it found before.
  pub query-update :
      (a : A) (k : String) (d d' : Disk)
      → update (ok new_store_file) (put a) d ≡ (ok tt, d')
      → get k d' ≡ (if key a =s k then ok a else get k d)
  unfolding query
  query-update a k d d' h =
      let (sf, sf', read, edited, wrote) = update-ok d (ok new_store_file) (put a) h in
      let before =
        query-answer (λ sf. found (missing k) (find_by key k (table sf))) (err (missing k)) d
          (rw t.empty refl) read in
      rw before (after sf sf' (t.written a sf sf' edited) wrote.0)
    where
      after :
          (sf sf' : StoreFile)
          → table sf' ≡ upsert key a (table sf)
          → d' ≡ record d { content = holds (bump sf') }
          → get k d' ≡ (if key a =s k then ok a else found (missing k) (find_by key k (table sf)))
      after sf sf' e w =
          ap (get k) w
          ∙ ap (λ xs. found (missing k) (find_by key k xs)) (t.bumped sf' ∙ e)
          ∙ ap (found (missing k)) (find_by-upsert key k a (table sf))
          ∙ found-if (missing k) (key a =s k) a (find_by key k (table sf))
