-- ===== src/Auth/Passphrase.antt =====
-- The passphrase that the proxy uses at the servers.
use multiserver.Shared.{◌≡◌, ◌≢◌, ◌⊎◌, refl, sym, ap, ◌∙◌, [], ◌∷◌, Bytes, codes, inl, inr}
use multiserver.Database.{Database, Answer, ok, err, database}
use multiserver.Storage.{storage_key, set_storage_key}
use multiserver.Storage.Effects.{set_storage_key-storage_key}
use multiserver.Auth.{saved, keep_passphrase, load_passphrase}

saved_cases :
    {S : Type 0} (fresh p : Bytes) (s' : S) (a : Answer (Unit {0}) × S)
    → saved fresh a ≡ (ok p, s')
    → (a ≡ (ok tt, s')) × (p ≡ fresh)
saved_cases fresh p s' (ok tt, s1) h = (cc, cc)
saved_cases fresh p s' (err e, s1) h = cc

abbrev passphrase_key : Bytes
passphrase_key = codes "auth:passphrase"

keep_cases :
    (d : Database) (s s' : d.State) (fresh p : Bytes) (a : Answer Bytes)
    → keep_passphrase d s fresh a ≡ (ok p, s')
    → ((a ≡ ok p) × (s' ≡ s) × (p ≢ []))
      ⊎ ((set_storage_key d s passphrase_key fresh ≡ (ok tt, s')) × (p ≡ fresh))
keep_cases d s s' fresh p (err e) h = cc
keep_cases d s s' fresh p (ok []) h = inr (saved_cases fresh p s' _ h)
keep_cases d s s' fresh p (ok (b ∷ pwd)) h = inl (cc, cc, λ e. cc)

kept_again :
    (d : Database) (s : d.State) (fresh p : Bytes)
    → p ≢ []
    → keep_passphrase d s fresh (ok p) ≡ (ok p, s)
kept_again d s fresh [] full = absurd (full refl)
kept_again d s fresh (b ∷ p) full = refl

load_again :
    (d : Database) (s : d.State) (fresh p : Bytes)
    → p ≢ []
    → (storage_key d s passphrase_key ≡ err database) ⊎ (storage_key d s passphrase_key ≡ ok p)
    → (load_passphrase d s fresh ≡ (err database, s)) ⊎ (load_passphrase d s fresh ≡ (ok p, s))
unfolding load_passphrase
load_again d s fresh p full (inl fails) = inl (rw fails)
load_again d s fresh p full (inr reads) = inr (rw reads (kept_again d s fresh p full))

-- Once the passphrase was loaded without an error, a later start of the proxy loads the same one,
-- whatever random bytes it drew, and changes nothing, unless the database fails.
load_passphrase_kept :
    (d : Database) (s s' : d.State) (fresh fresh' p : Bytes)
    → fresh ≢ []
    → load_passphrase d s fresh ≡ (ok p, s')
    → (load_passphrase d s' fresh' ≡ (err database, s'))
      ⊎ (load_passphrase d s' fresh' ≡ (ok p, s'))
unfolding load_passphrase
load_passphrase_kept d s s' fresh fresh' p random h =
    elim (keep_cases d s s' fresh p (storage_key d s passphrase_key) h) [
      | inl (reads, same, full) ↦
          load_again d s' fresh' p full
            (inr (ap (λ x. storage_key d x passphrase_key) same ∙ reads))
      | inr (stores, same) ↦
          load_again d s' fresh' p (λ e. random (sym same ∙ e))
            (elim (set_storage_key-storage_key d s s' passphrase_key fresh random stores).0 [
              | inl fails ↦ inl fails
              | inr reads ↦ inr (reads ∙ ap ok (sym same))
            ])
    ]
