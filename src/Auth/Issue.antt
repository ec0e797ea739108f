-- ===== src/Auth/Issue.antt =====
-- The table of refresh tokens as the service fills it: each token is signed over its own draw.
use powergas.Base.{
  ℕ, ◌+◌, ◌<◌, ◌≤◌, ◌≡◌, sym, ◌∙◌, Bool, false, [], ◌∷◌, arith, ◌==◌, Bool-cases, inl, inr,
}
use powergas.Table.{
  Uuid, Table, IsBelow, IsKeyed, AllRows, update, update_where, insert, update-IsKeyed,
  update-IsBelow, insert-IsBelow, insert-IsKeyed, IsBelow-mono, IsBelow-find_by_id,
}
use powergas.Table.Rows.{
  AllRows-mono, AllRows-insert, AllRows-update_keep, AllRows-update_where, update_where-IsKeyed,
  update_where-IsBelow,
}
use powergas.Entities.{Text, RefreshToken}
use powergas.World.{World}
use powergas.Auth.{Libraries}
use powergas.Auth.Sessions.{Lacks, IsDistinct}

-- A write that leaves a row's token as it is.
abbrev pub KeepsToken : (RefreshToken → RefreshToken) → Type 0
KeepsToken f = (r : RefreshToken) → (f r).token ≡ r.token

module _ (f : RefreshToken → RefreshToken) (keeps : KeepsToken f) where
  Lacks-row :
      (token : Text) (r : RefreshToken)
      → (r.token == token) ≡ false
      → ((f r).token == token) ≡ false
  Lacks-row token r h = rw (keeps r) h

  update-IsDistinct : (k : Uuid) (t : Table RefreshToken) → IsDistinct t → IsDistinct (update k f t)
  update-IsDistinct k [] h = tt
  update-IsDistinct k ((j, v) ∷ t) h = elim (Bool-cases (j == k)) [
    | inl own ↦ rw own (rw (keeps v) h.0, h.1)
    | inr other ↦ rw other (
      AllRows-update_keep (λ r. (r.token == v.token) ≡ false) f (Lacks-row v.token) k t h.0,
      update-IsDistinct k t h.1,
    )
  ]

  update_where-IsDistinct :
      (q : RefreshToken → Bool) (t : Table RefreshToken)
      → IsDistinct t
      → IsDistinct (update_where q f t)
  update_where-IsDistinct q [] h = tt
  update_where-IsDistinct q ((j, v) ∷ t) h =
      let later =
        AllRows-update_where (λ r. (r.token == v.token) ≡ false) f (Lacks-row v.token) q t h.0 in
      let rest = update_where-IsDistinct q t h.1 in
      elim (Bool-cases (q v)) [
        | inl hit ↦ rw hit (rw (keeps v) later, rest)
        | inr miss ↦ rw miss (later, rest)
      ]

insert-IsDistinct :
    (k : Uuid) (r : RefreshToken) (t : Table RefreshToken)
    → IsDistinct t
    → Lacks r.token t
    → IsDistinct (insert k r t)
insert-IsDistinct k r [] h new = (tt, tt)
insert-IsDistinct k r ((j, v) ∷ t) h new = (
  AllRows-insert (λ u. (u.token == v.token) ≡ false) k r t h.0 (ground (arith, new.0)),
  insert-IsDistinct k r t h.1 new.1,
)

module _ (lib : Libraries) where
  -- A token over a draw below `n`.
  abbrev pub IsSigned : ℕ → RefreshToken → Type 0
  IsSigned n r = (j : ℕ) × (j < n) × (r.token ≡ lib.sign_refresh r.user_id j)

  pub record Issued (n : ℕ) (t : Table RefreshToken) : Type 0 where
    pub keyed : IsKeyed t
    pub below : IsBelow n t
    pub distinct : IsDistinct t
    pub signed : AllRows (IsSigned n) t

  abbrev pub IsIssued : World → Type 0
  IsIssued w = Issued w.next_id w.refresh_tokens

  pub Issued-mono : (n m : ℕ) (t : Table RefreshToken) → n ≤ m → Issued n t → Issued m t
  Issued-mono n m t l h = record {
    keyed = h.keyed;
    below = IsBelow-mono n m t h.below l;
    distinct = h.distinct;
    signed = AllRows-mono t (λ r (j, below, e). (j, omega arith, e)) h.signed;
  }

  module _ (f : RefreshToken → RefreshToken) (keeps : KeepsToken f)
      (keeps_user : (r : RefreshToken) → (f r).user_id ≡ r.user_id) where
    IsSigned-row : (n : ℕ) (r : RefreshToken) → IsSigned n r → IsSigned n (f r)
    IsSigned-row n r (j, below, e) = (j, below, rw (keeps r, keeps_user r) e)

    pub update-Issued :
        (n : ℕ) (k : Uuid) (t : Table RefreshToken) → Issued n t → Issued n (update k f t)
    update-Issued n k t h = record {
      keyed = update-IsKeyed k f t h.keyed;
      below = update-IsBelow n k f t h.below;
      distinct = update-IsDistinct f keeps k t h.distinct;
      signed = AllRows-update_keep (IsSigned n) f (IsSigned-row n) k t h.signed;
    }

    pub update_where-Issued :
        (n : ℕ) (q : RefreshToken → Bool) (t : Table RefreshToken)
        → Issued n t
        → Issued n (update_where q f t)
    update_where-Issued n q t h = record {
      keyed = update_where-IsKeyed q f t h.keyed;
      below = update_where-IsBelow q f n t h.below;
      distinct = update_where-IsDistinct f keeps q t h.distinct;
      signed = AllRows-update_where (IsSigned n) f (IsSigned-row n) q t h.signed;
    }

  -- What is relied on: tokens signed over different draws are different.
  abbrev pub SignsApart : Type 0
  SignsApart = (u u' j j' : Uuid) → lib.sign_refresh u j ≡ lib.sign_refresh u' j' → j ≡ j'

  pub Lacks-new :
      SignsApart
      → (n : ℕ) (u : Uuid) (t : Table RefreshToken) → AllRows (IsSigned n) t
      → Lacks (lib.sign_refresh u n) t
  Lacks-new apart n u t = AllRows-mono t λ r (j, below, e).
      elim (Bool-cases (r.token == lib.sign_refresh u n)) [
        | inl same_text ↦
            let same_draw = apart r.user_id u j n (sym e ∙ ground arith) in absurd (omega arith)
        | inr differs ↦ differs
      ]

  pub insert-Issued :
      SignsApart
      → (n : ℕ) (r : RefreshToken) (t : Table RefreshToken) → Issued n t
      → r.token ≡ lib.sign_refresh r.user_id n
      → Issued (n + 1 + 1) (insert (n + 1) r t)
  insert-Issued apart n r t h e = record {
    keyed =
        insert-IsKeyed (n + 1) r t h.keyed (IsBelow-find_by_id n (n + 1) t h.below (omega arith));
    below = insert-IsBelow (n + 1) r t (IsBelow-mono n (n + 1) t h.below (omega arith));
    distinct =
        insert-IsDistinct (n + 1) r t h.distinct (rw e (Lacks-new apart n r.user_id t h.signed));
    signed =
        AllRows-insert (IsSigned (n + 1 + 1)) (n + 1) r t
          (AllRows-mono t (λ r (j, below, e). (j, omega arith, e)) h.signed) (n, omega arith, e);
  }
