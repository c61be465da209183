-- ===== src/Application/Launch.antt =====
-- taiko-preconfer/src/main.rs: what holds when the loops start.
use taiko_preconfer.Prelude.{
  ℕ, zero, suc, ◌≡◌, refl, ap, sym, subst, arith, true, some, All, Option-cases, inl, inr, ◌∙◌,
  sub64, mul64, ltb,
}
use taiko_preconfer.Prelude.Outcome.{Outcome, ok, >>=-eq-ok, ok_injective}
use taiko_preconfer.Chain.{Header, Block}
use taiko_preconfer.Anchor
use taiko_preconfer.Anchor.{
  ValidAnchor, AnchorHeader, compute_valid_anchor_id, update_block_number, update_last_anchor_id,
}
use taiko_preconfer.Batch.{BaseFeeConfig, Batch}
use taiko_preconfer.Batch.Meta.{Stats2, get_latest_confirmed_batch}
use taiko_preconfer.Clock.{as_secs}
use taiko_preconfer.Whitelist.{Address}
use taiko_preconfer.Configuration.{Config}
use taiko_preconfer.Head
use taiko_preconfer.Head.{State}
use taiko_preconfer.Head.Invariant.{Inv}
use taiko_preconfer.Tracking.{unconfirmed_l2_blocks}
use taiko_preconfer.Tracking.Startup.{unconfirmed_l2_blocks-Inv}
use taiko_preconfer.Application.Owned.{IsOwn, unconfirmed_from-IsOwn}
use taiko_preconfer.Application.{
  InboxConfig, valid_timestamp_of, Nodes, Launched, first_anchor, get_inbox, get_whitelist,
  get_taiko_l2_client, get_taiko_l1_client, get_latest_header, strategy_of, assemble, prepare,
  TaikoL1Client, TaikoL2Client, launch,
}

abbrev at_number : ℕ → ℕ → ℕ → ℕ → ValidAnchor
at_number max_offset lag number last_anchor_id = record {
  max_offset = max_offset;
  desired_offset = lag;
  block_number = number;
  current_anchor = record { id = 0; time = 0; state_root = 0 };
  last_anchor_id = last_anchor_id;
}

fresh_lem :
    (max_offset lag number last_anchor_id : ℕ)
    → update_last_anchor_id (update_block_number (Anchor.new max_offset lag) number) last_anchor_id
      ≡ at_number max_offset lag number last_anchor_id
unfolding update_last_anchor_id update_block_number Anchor.new
fresh_lem max_offset lag zero last_anchor_id = refl
fresh_lem max_offset lag (suc number) last_anchor_id =
    let less : ltb 0 (suc number) ≡ true = ground arith in rw less refl

update_lem :
    {E : Type 0} (get_header_by_id : ℕ → Outcome E AnchorHeader)
    (max_offset lag number last_anchor_id : ℕ) (v : ValidAnchor)
    → Anchor.update get_header_by_id (
        update_last_anchor_id
          (update_block_number (Anchor.new max_offset lag) number)
          last_anchor_id)
      ≡ ok v
    → (v.block_number ≡ number)
      × (v.current_anchor.id ≡ compute_valid_anchor_id number max_offset lag last_anchor_id)
unfolding Anchor.update Anchor.update_to
update_lem get_header_by_id max_offset lag number last_anchor_id v h =
    let h' = rw (fresh_lem max_offset lag number last_anchor_id) at h in
    let id = compute_valid_anchor_id number max_offset lag last_anchor_id in
    let (header, asked, h1) = >>=-eq-ok (get_header_by_id id) _ h' in
    let made = record (at_number max_offset lag number last_anchor_id) {
      current_anchor = record { id = id; time = header.timestamp; state_root = header.state_root };
    } in
    let same : made ≡ v = ground arith in
    subst (λ w. (w.block_number ≡ number) × (w.current_anchor.id ≡ id)) same (refl, refl)

module _ {E Tx Provider Key F : Type 0} (n : Nodes E Tx Provider Key) (config : Config F) where
  -- The answers that the start goes by: the inbox and its configuration, the latest L2 header, and the
  -- latest L1 header at two times, each of the node that the configuration names.
  pub record IsAnswered (inbox : Provider) (inbox_config : InboxConfig) (l2_header : Header)
      (l1_header later_l1_header : Header) : Type 0 where
    pub l1_provider : Provider
    pub l2_provider : Provider
    pub inbox_connected : n.connect_ws config.l1_ws_url ≡ ok inbox
    pub l1_connected : n.connect config.l1_client_url ≡ ok l1_provider
    pub l2_connected : n.connect config.l2_client_url ≡ ok l2_provider
    pub configured : n.inbox_config inbox ≡ ok inbox_config
    pub l2_latest : n.get_latest_block l2_provider 0 ≡ ok (some l2_header)
    pub l1_latest : n.get_latest_block l1_provider 0 ≡ ok (some l1_header)
    pub l1_later : n.get_latest_block l1_provider 1 ≡ ok (some later_l1_header)

  -- The inbox's last batch.
  abbrev pub IsLatest : Provider → Batch → Type 0
  IsLatest inbox batch =
      (stats2 : Stats2) × ((n.inbox inbox).get_stats2 ≡ ok stats2)
      × ((n.inbox inbox).get_batch (sub64 stats2.num_batches 1) ≡ ok batch)

  -- What the start leaves for the loops.
  pub record IsReady (l : Launched Tx Provider Key F) : Type 0 where
    pub key : Key
    pub inbox : Provider
    pub inbox_config : InboxConfig
    pub batch : Batch
    pub l1_header : Header
    pub later_l1_header : Header
    pub signed : n.get_signing_key config.private_key ≡ ok key
    pub answered : IsAnswered inbox inbox_config l.last_l2_header l1_header later_l1_header
    pub last_batch : IsLatest inbox batch
    pub timestamp : l.last_l1_timestamp ≡ l1_header.timestamp
    pub confirmed : l.head.last_confirmed_block_id ≡ some batch.last_block_id
    pub good : Inv l.head.last_confirmed_block_id l.head.tx_cache
    pub own :
        All (IsOwn n.get_anchor_block_id (n.address_of key) batch.anchor_block_id) l.head.tx_cache
    pub known : l.valid_anchor.block_number ≡ later_l1_header.number
    pub anchor :
        l.valid_anchor.current_anchor.id
        ≡ compute_valid_anchor_id later_l1_header.number inbox_config.max_anchor_height_offset
            config.anchor_id_lag batch.anchor_block_id
    pub address : l.strategy.address ≡ n.address_of key
    pub window :
        l.strategy.valid_timestamp.max_offset
        ≡ mul64 inbox_config.max_anchor_height_offset (as_secs config.l1_slot_duration)

  latest_header_lem :
      (provider : Provider) (request : ℕ) (header : Header)
      → get_latest_header n config provider request ≡ ok header
      → n.get_latest_block provider request ≡ ok (some header)
  unfolding get_latest_header
  latest_header_lem provider request header h =
      let (block, asked, there) = >>=-eq-ok (n.get_latest_block provider request) _ h in
      elim (Option-cases block) [
        | inl e ↦ absurd (let missing = rw e at there in cc)
        | inr (found, e) ↦
            let same = ok_injective found header (rw e at there) in asked ∙ ap ok (e ∙ ap some same)
      ]

  l1_client_lem :
      (address : Address) (client : TaikoL1Client Provider F)
      → get_taiko_l1_client n config address ≡ ok client
      → n.connect config.l1_client_url ≡ ok client.provider
  unfolding get_taiko_l1_client
  l1_client_lem address client h =
      let (_, _, h1) = >>=-eq-ok (n.wallet config.private_key) _ h in
      let (provider, connected, h2) = >>=-eq-ok (n.connect config.l1_client_url) _ h1 in
      let (inbox, _, made) = >>=-eq-ok (get_inbox n config) _ h2 in
      connected ∙ ap (λ (x : TaikoL1Client Provider F). ok x.provider) (ok_injective _ client made)

  l2_client_lem :
      (fees : BaseFeeConfig) (address : Address) (client : TaikoL2Client Provider Key)
      → get_taiko_l2_client n config fees address ≡ ok client
      → n.connect config.l2_client_url ≡ ok client.provider
  unfolding get_taiko_l2_client
  l2_client_lem fees address client h =
      let (provider, connected, h1) = >>=-eq-ok (n.connect config.l2_client_url) _ h in
      let (chain_id, _, h2) = >>=-eq-ok (n.get_chain_id provider) _ h1 in
      let (key, _, made) = >>=-eq-ok (n.get_signing_key config.golden_touch_private_key) _ h2 in
      connected
      ∙ ap (λ (x : TaikoL2Client Provider Key). ok x.provider) (ok_injective _ client made)

  latest_lem :
      (inbox : Provider) (batch : Batch)
      → get_latest_confirmed_batch (n.inbox inbox) ≡ ok batch
      → IsLatest inbox batch
  unfolding get_latest_confirmed_batch
  latest_lem inbox batch h = >>=-eq-ok (n.inbox inbox).get_stats2 _ h

  first_anchor_lem :
      (max_offset number : ℕ) (inbox : Provider) (v : ValidAnchor) (anchor_id last : ℕ)
      → first_anchor n config max_offset number inbox ≡ ok (v, anchor_id, last)
      → (batch : Batch) × IsLatest inbox batch
        × (batch.anchor_block_id ≡ anchor_id)
        × (batch.last_block_id ≡ last)
        × (v.block_number ≡ number)
        × (v.current_anchor.id
            ≡ compute_valid_anchor_id number max_offset config.anchor_id_lag anchor_id)
  unfolding first_anchor
  first_anchor_lem max_offset number inbox v anchor_id last h =
      let (batch, found, h1) = >>=-eq-ok (get_latest_confirmed_batch (n.inbox inbox)) _ h in
      let (anchor, updated, h2) = >>=-eq-ok (Anchor.update n.get_header_by_id _) _ h1 in
      let (number_lem, id_lem) =
        update_lem n.get_header_by_id max_offset config.anchor_id_lag number batch.anchor_block_id
          anchor updated in
      let same : anchor ≡ v = ground arith in
      let anchored : batch.anchor_block_id ≡ anchor_id = ground arith in
      (
        batch,
        latest_lem inbox batch found,
        anchored,
        ground arith,
        subst (λ w. w.block_number ≡ number) same number_lem,
        subst
            (λ w.
              w.current_anchor.id
              ≡ compute_valid_anchor_id number max_offset config.anchor_id_lag anchor_id)
            same
            (subst
              (λ i.
                anchor.current_anchor.id
                ≡ compute_valid_anchor_id number max_offset config.anchor_id_lag i)
              anchored id_lem),
      )

  module _
      (by_id : (id : ℕ) (b : Block Tx) → n.get_block_by_id id ≡ ok b → b.header.number ≡ id) where
    prepare-IsReady :
        (inbox : Provider) (inbox_config : InboxConfig) (l2_client : TaikoL2Client Provider Key)
        (l1_client : TaikoL1Client Provider F) (l2_header l1_header later_l1_header : Header)
        (key : Key) (l : Launched Tx Provider Key F)
        → n.get_signing_key config.private_key ≡ ok key
        → IsAnswered inbox inbox_config l2_header l1_header later_l1_header
        → prepare n config inbox inbox_config.max_anchor_height_offset l2_client l1_client l2_header
            l1_header.timestamp later_l1_header.number
            (n.address_of key)
          ≡ ok l
        → IsReady l
    unfolding prepare assemble Head.start strategy_of valid_timestamp_of
    prepare-IsReady inbox inbox_config l2_client l1_client l2_header l1_header later_l1_header key l
          signed answered h =
        let max_offset = inbox_config.max_anchor_height_offset in
        let l1_number = later_l1_header.number in
        let address = n.address_of key in
        let ((anchor, anchor_id, last), first, h1) =
          >>=-eq-ok (first_anchor n config max_offset l1_number inbox) _ h in
        let (blocks, picked, h2) =
          >>=-eq-ok
            (unconfirmed_l2_blocks n.get_block_by_id n.get_anchor_block_id address anchor_id last
              l2_header.number)
            _ h1 in
        let (batch, latest, batch_anchor, batch_last, number, id) =
          first_anchor_lem max_offset l1_number inbox anchor anchor_id last first in
        let made =
          assemble n config max_offset l2_client l1_client l2_header l1_header.timestamp address
            anchor last blocks in
        subst IsReady (ok_injective made l h2) (record {
          key = key;
          batch = batch;
          inbox = inbox;
          inbox_config = inbox_config;
          l1_header = l1_header;
          later_l1_header = later_l1_header;
          signed = signed;
          answered = answered;
          last_batch = latest;
          timestamp = refl;
          confirmed = ap some (sym batch_last);
          good =
              unconfirmed_l2_blocks-Inv n.get_block_by_id n.get_anchor_block_id address anchor_id
                by_id last l2_header.number blocks picked;
          own =
              subst (λ i. All (IsOwn n.get_anchor_block_id address i) blocks) (sym batch_anchor)
                (unfold unconfirmed_l2_blocks in
                  unconfirmed_from-IsOwn n.get_anchor_block_id address anchor_id n.get_block_by_id _
                    _ blocks picked);
          known = number;
          anchor =
              subst
                (λ i.
                  anchor.current_anchor.id
                  ≡ compute_valid_anchor_id l1_number max_offset config.anchor_id_lag i)
                (sym batch_anchor) id;
          address = refl;
          window = refl;
        })

    -- If the node answers each request for a number with the block of that number, a start that succeeds
    -- leaves: the latest header of the L2 node and the timestamp of that of the L1 node; the last block of
    -- the inbox's last batch as the confirmed one; a cache that lists, by rising number, blocks past that
    -- block, all of which this preconfer built and anchored not before that batch; an anchor at the id
    -- that the L1 node's number, asked again, the inbox's largest offset, the lag and that batch call
    -- for; and a strategy for the address of the private key, with that offset in seconds.
    pub launch-IsReady : (l : Launched Tx Provider Key F) → launch n config ≡ ok l → IsReady l
    unfolding launch
    launch-IsReady l h =
        let (inbox, connected, h1) = >>=-eq-ok (get_inbox n config) _ h in
        let (inbox_config, read, h2) = >>=-eq-ok (n.inbox_config inbox) _ h1 in
        let (key, signed, h3) = >>=-eq-ok (n.get_signing_key config.private_key) _ h2 in
        let address = n.address_of key in
        let (l2_client, made2, h4) =
          >>=-eq-ok (get_taiko_l2_client n config inbox_config.base_fee_config address) _ h3 in
        let (l2_header, asked, h5) =
          >>=-eq-ok (get_latest_header n config l2_client.provider 0) _ h4 in
        let (l1_client, made1, h6) = >>=-eq-ok (get_taiko_l1_client n config address) _ h5 in
        let (l1_header, asked1, h7) =
          >>=-eq-ok (get_latest_header n config l1_client.provider 0) _ h6 in
        let (whitelist, listed, h8) = >>=-eq-ok (get_whitelist n config) _ h7 in
        let (later, asked2, h9) =
          >>=-eq-ok (get_latest_header n config l1_client.provider 1) _ h8 in
        let answers : IsAnswered inbox inbox_config l2_header l1_header later = record {
          l1_provider = l1_client.provider;
          l2_provider = l2_client.provider;
          inbox_connected = unfold get_inbox in connected;
          l1_connected = l1_client_lem address l1_client made1;
          l2_connected = l2_client_lem inbox_config.base_fee_config address l2_client made2;
          configured = read;
          l2_latest = latest_header_lem l2_client.provider 0 l2_header asked;
          l1_latest = latest_header_lem l1_client.provider 0 l1_header asked1;
          l1_later = latest_header_lem l1_client.provider 1 later asked2;
        } in
        prepare-IsReady inbox inbox_config l2_client l1_client l2_header l1_header later key l
          signed answers h9
