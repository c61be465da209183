-- ===== src/Tracking/Heads.antt =====
-- taiko-preconfer/src/onchain_tracking_loop.rs: what the headers leave behind.
use taiko_preconfer.Prelude.{
  ℕ, ◌≡◌, inl, inr, refl, ap, ◌∙◌, arith, List, [], ◌∷◌, max, ltb, Bool-cases,
}
use taiko_preconfer.Chain.{Header}
use taiko_preconfer.Anchor.{update_block_number}
use taiko_preconfer.Tracking.{L1State, process_header, stream_l1_headers}

-- The highest number, at least `n`; and the last timestamp, `t` if there is no header.
abbrev pub highest : ℕ → List Header → ℕ
highest n [] = n
highest n (h ∷ hs) = highest (max n h.number) hs

abbrev pub latest_timestamp : ℕ → List Header → ℕ
latest_timestamp t [] = t
latest_timestamp t (h ∷ hs) = latest_timestamp h.timestamp hs

number_lem :
    (s : L1State) (h : Header)
    → (process_header s h).valid_anchor.block_number ≡ max s.valid_anchor.block_number h.number
unfolding process_header update_block_number
number_lem s h = ground arith

anchor_lem :
    (s : L1State) (h : Header)
    → (process_header s h).valid_anchor.current_anchor ≡ s.valid_anchor.current_anchor
unfolding process_header update_block_number
anchor_lem s h = elim (Bool-cases (ltb s.valid_anchor.block_number h.number)) [
  | inl e ↦ rw e refl
  | inr e ↦ rw e refl
]

-- After any L1 headers, in whatever order, the anchor knows the highest block number, and the shared
-- timestamp is that of the last header; the anchor itself is not moved.
pub stream_l1_headers_lem :
    (s : L1State) (hs : List Header)
    → ((stream_l1_headers s hs).valid_anchor.block_number ≡ highest s.valid_anchor.block_number hs)
      × ((stream_l1_headers s hs).last_l1_timestamp ≡ latest_timestamp s.last_l1_timestamp hs)
      × ((stream_l1_headers s hs).valid_anchor.current_anchor ≡ s.valid_anchor.current_anchor)
unfolding stream_l1_headers
stream_l1_headers_lem s [] = (refl, refl, refl)
stream_l1_headers_lem s (h ∷ hs) =
    let (number, time, anchor) = stream_l1_headers_lem (process_header s h) hs in
    (
      number ∙ ap (λ n. highest n hs) (number_lem s h),
      time ∙ (unfold process_header in refl),
      anchor ∙ anchor_lem s h,
    )
