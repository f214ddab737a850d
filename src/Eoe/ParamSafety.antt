-- ===== src/Eoe/ParamSafety.antt =====
-- The mailboxes that `ecx_EOEsetIp` and `ecx_EOEgetIp` take.
use ether_cat_master.Prelude.{ℕ, ◌≡◌, refl, ap, ◌∙◌, ltb, Bool-cases, inl, inr}
use ether_cat_master.Memory.{Buffer}
use ether_cat_master.Mailbox.{Mailboxes, Reception, mailbox, nothing, counted, received, one_less}
use ether_cat_master.Eoe.Params.{
  EoeParam, Session, post, request, set_request, get_request, drop_received, finish, eoe_set_ip,
  eoe_get_ip,
}

module _ {S : Type 0} (m : Mailboxes S) where
  -- A mailbox that came in is dropped again, and without one there is nothing to drop.
  dropped_again :
      (got : S × Reception) (out : ℕ) (link : S × ℕ)
      → link.1 ≡ (received got out).0.1
      → (drop_received (counted m) link (received got out).1).1 ≡ out
  dropped_again (s, mailbox n mbx) out (link, k) h = ap one_less h
  dropped_again (s, nothing i) out (link, k) h = h

  post_balanced :
      (build : ℕ → Buffer → Buffer) (s : Session (S × ℕ))
      → (post (counted m) build s).0.1 ≡ s.link.1
  unfolding post
  post_balanced build s = dropped_again (m.mbxreceive s.link.0) s.link.1 _ refl

  abbrev ended : Session (S × ℕ) × Reception → ℕ
  ended (s, got) = (finish (counted m) s got).link.1

  request_balanced :
      (build : ℕ → Buffer → Buffer) (s : Session (S × ℕ))
      → ended (request (counted m) build s) ≡ s.link.1
  unfolding request
  request_balanced build s = elim (Bool-cases (ltb 0 (post (counted m) build s).1)) [
    | inl e ↦ rw e (
        dropped_again (m.mbxreceive (post (counted m) build s).0.0) (post (counted m) build s).0.1 _
          refl
        ∙ post_balanced build s)
    | inr e ↦ rw e (post_balanced build s)
  ]

  -- Whatever the slave sends, after `ecx_EOEsetIp` and `ecx_EOEgetIp` the caller has as many mailboxes as
  -- before.
  pub eoe_set_ip-eoe_get_ip_balanced :
      (port : ℕ) (p : EoeParam) (s : Session (S × ℕ))
      → ((eoe_set_ip (counted m) port p s).0.link.1 ≡ s.link.1)
        × ((eoe_get_ip (counted m) port p s).0.link.1 ≡ s.link.1)
  unfolding eoe_set_ip eoe_get_ip
  eoe_set_ip-eoe_get_ip_balanced port p s =
      (request_balanced (set_request port p) s, request_balanced (get_request port) s)
