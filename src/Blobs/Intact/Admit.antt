-- ===== src/Blobs/Intact/Admit.antt =====
-- The check before an upload is opened: it reads only, and knows the cap.
use vaultcrdt_server.Base.{ltb, leb, ℕ, ◌≤◌, ◌≡◌, Text, none, some, arith}
use vaultcrdt_server.Sql.{query}
use vaultcrdt_server.Db.{Db}
use vaultcrdt_server.Blobs.Disk.{sql}
use vaultcrdt_server.Blobs.Disk.Triples.{
  Store, Triple, pure-Triple, bind-Triple, if-Triple, query-Triple,
}
use vaultcrdt_server.Blobs.Uploads.{
  type_cap_exceeded, too_many_uploads, quota_exceeded, absolute_max,
}
use vaultcrdt_server.Blobs.Uploads.Create.{max_open_uploads, over_quota, admit_upload}

module _ (default_quota : ℕ) (v : Text) (size : ℕ) (P : Store → Type 0) where
  asks : {A : Type 0} (f : ℕ → Db → A) → Triple P (sql (query f)) (λ _. P) P
  asks f = query-Triple P _ P f (λ t s p. p) (λ s p. p)

  over_quota-Triple : (q : ℕ) → Triple P (over_quota v q size) (λ _. P) P
  unfolding over_quota
  over_quota-Triple q =
      if-Triple _ _ P (ltb 0 q) _ _
        (λ _.
          bind-Triple _ _ _ P _ _ (asks _)
            λ held. bind-Triple _ _ _ P _ _ (asks _) λ inflight. pure-Triple _ _ P _ (λ s p. p))
        (λ _. pure-Triple _ _ P _ (λ s p. p))

  pub admit_upload-Triple :
      Triple P (admit_upload default_quota v size) (λ o s. P s × (o ≡ none → size ≤ absolute_max)) P
  unfolding admit_upload
  admit_upload-Triple =
      if-Triple _ _ P (ltb absolute_max size) _ _
        (λ _. pure-Triple _ _ P (some type_cap_exceeded) (λ s p. (p, λ x. absurd (cc x))))
        (λ small.
          bind-Triple _ (λ _. P) _ P _ _ (asks _)
            λ count.
              if-Triple _ _ P (leb max_open_uploads count) _ _
                (λ _. pure-Triple _ _ P (some too_many_uploads) (λ s p. (p, λ x. absurd (cc x))))
                (λ _.
                  bind-Triple _ (λ _. P) _ P _ _ (asks _)
                    λ quota.
                      bind-Triple _ (λ _. P) _ P _ _ (over_quota-Triple _)
                        λ over.
                          if-Triple _ _ P over _ _
                            (λ _.
                              pure-Triple _ _ P (some (quota_exceeded _))
                                (λ s p. (p, λ x. absurd (cc x))))
                            (λ _. pure-Triple _ _ P none (λ s p. (p, λ _. ground arith)))))
