-- ===== src/Routing/Workspace/Digest.antt =====
-- src/providers/routing/policy.ts: the digest of a policy does not show the order of its only and ignore lists.
use confidential_content_pla.Prelude.{◌≡◌, refl, Option, none, some, List, String}
use confidential_content_pla.Prelude.TextOrder.{Reordered, sort_texts-Reordered}
use confidential_content_pla.Routing.{Amounts, NormalizedProviderRoutingPolicy}
use confidential_content_pla.Routing.Workspace.{provider_policy_digest, or_null, sorted_text}

-- Both are unset, or both say the same in some order.
abbrev pub SameList : Option (List String) → Option (List String) → Type 0
SameList none none = Unit {0}
SameList (some xs) (some ys) = Reordered xs ys
SameList _ _ = ⊥

module _ (A : Amounts) (amount_text : A.Amount → String) where
  open A use {Amount}

  only_text :
      (o q : Option (List String))
      → SameList o q
      → or_null (sorted_text A amount_text) o ≡ or_null (sorted_text A amount_text) q
  only_text none none h = refl
  only_text (some xs) (some ys) h = rw (sort_texts-Reordered h)
  only_text none (some ys) h = absurd h
  only_text (some xs) none h = absurd h

  -- Two policies that differ only in the order of their only and their ignore lists have one digest.
  pub digest-Reordered :
      (p : NormalizedProviderRoutingPolicy Amount) (only : Option (List String))
      (ignore : List String)
      → SameList p.only only
      → Reordered p.ignore ignore
      → provider_policy_digest A amount_text p
        ≡ provider_policy_digest A amount_text (record p { only = only; ignore = ignore })
  unfolding provider_policy_digest
  digest-Reordered p only ignore h k = rw (only_text p.only only h, sort_texts-Reordered k)
