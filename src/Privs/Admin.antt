-- ===== src/Privs/Admin.antt =====
-- What a decoded privilege set is like, and the privilege of the configured admin.
use multiserver.Shared.{
  ◌≡◌, ◌≢◌, ◌⊎◌, ap, ◌∙◌, Bool, true, none, some, List, [], ◌∷◌, Bytes, lookup, insert, holds,
  holds-insert, NodupKeys, insert-NodupKeys, ◌==◌, bytes_eq, bytes_beq_iff, if◌then◌else◌, All,
  arith, Bool-cases, inl, inr,
}
use multiserver.Text.{split}
use multiserver.Text.Laws.{Lacks, split-Lacks}
use multiserver.Database.{Database, ok, err, database, insert_privileges}
use multiserver.Privs.{
  Privileges, bar, encode_privs, decode_privs, decode_loop, privs, set_privs, grant_admin,
  admin_priv,
}
use multiserver.Privs.Codec.{HasNames, IsName}
use multiserver.Privs.Store.{Agrees, set_privs-privs}

pub insert-HasNames :
    (p : Bytes) (b : Bool) (m : Privileges)
    → (b ≡ true → IsName p)
    → HasNames m
    → HasNames (insert p b m)
unfolding insert
insert-HasNames p b [] hp h = (hp, tt)
insert-HasNames p b ((q, w) ∷ m) hp (hq, h) = elim (Bool-cases (q == p)) [
  | inl same ↦ rw same ((λ e. rw ((bytes_beq_iff q p).0 same) (hp e)), h)
  | inr differ ↦ rw differ (hq, insert-HasNames p b m hp h)
]

decode_loop-fit :
    (ps : List Bytes) (r : Privileges)
    → All (Lacks bar) ps
    → NodupKeys r
    → HasNames r
    → NodupKeys (decode_loop ps r) × HasNames (decode_loop ps r)
unfolding decode_loop
decode_loop-fit [] r h u n = (u, n)
decode_loop-fit (p ∷ ps) r (hp, h) u n = elim (Bool-cases (p == [])) [
  | inl blank ↦ rw blank (decode_loop-fit ps r h u n)
  | inr named ↦ rw named (
      decode_loop-fit ps (insert p true r) h (insert-NodupKeys p true r u)
        (insert-HasNames p true r (λ _. ((λ e. cc ((bytes_beq_iff p []).1 e)), hp)) n))
]

-- Whatever text the database holds, the decoded set can be written again.
pub decode_privs-fit : (s : Bytes) → NodupKeys (decode_privs s) × HasNames (decode_privs s)
unfolding decode_privs
decode_privs-fit s = decode_loop-fit (split bar s) [] (split-Lacks bar s) tt tt

admin_priv-IsName : IsName admin_priv
admin_priv-IsName = ((λ e. cc), omega arith)

-- At the start, if the admin's privileges can be read and `SetPrivs` reports no error, the admin has
-- the privilege "privs" beside those that the database held, unless the database fails at reading;
-- other players' privileges and the other tables are as before. The admin had a row, or the
-- insertion of one succeeded.
grant_admin_grants :
    (d : Database) (s s' : d.State) (admin text : Bytes)
    → privs d s admin ≡ ok (decode_privs text)
    → set_privs d s admin (insert admin_priv true (decode_privs text)) ≡ (ok tt, s')
    → ((d.exec s (
          insert_privileges
            (admin ∷ encode_privs (insert admin_priv true (decode_privs text)) ∷ []))).0
        ≡ true)
      ⊎ (lookup admin (d.tables s).privileges ≢ none)
    → (grant_admin d s (some admin) ≡ s')
      × Agrees admin (d.tables s) (d.tables s')
      × ((privs d s' admin ≡ err database)
          ⊎ ((m : Privileges) × (privs d s' admin ≡ ok m)
              × ((k : Bytes)
                  → holds k m ≡ (if admin_priv == k then true else holds k (decode_privs text)))))
unfolding grant_admin
grant_admin_grants d s s' admin text reads sets there =
    let old = decode_privs text in
    let m = insert admin_priv true old in
    let (u, names) = decode_privs-fit text in
    let (result, agrees) =
      set_privs-privs d s admin m {s' = s'} (insert-NodupKeys admin_priv true old u)
        (insert-HasNames admin_priv true old (λ _. admin_priv-IsName) names) there sets in
    (
      rw reads (ap (λ p. p.1) sets),
      agrees,
      elim result [
        | inl fails ↦ inl fails
        | inr (m', reads', same) ↦
            inr (m', reads', λ k. same k ∙ holds-insert k admin_priv true old)
      ],
    )
