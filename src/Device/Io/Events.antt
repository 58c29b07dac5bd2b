-- ===== src/Device/Io/Events.antt =====
-- io.c: which of the SDK's calls an event of the device, or an exchange over the SPI, makes.
use ledger_app_neo.Prelude.{
  ℕ, ◌-◌, ◌≡◌, arith, Bool, true, not, ◌&&◌, List, [], ◌∷◌, get_or, take, ◌==◌, bit_and,
  if◌then◌else◌,
}
use ledger_app_neo.Sdk.{Call, returns, throws}

-- The numbers that the SDK's headers give to tags, flags, channels and exceptions, and `U4BE`.
pub record Numbers : Type 0 where
  pub button_push_event : ℕ
  pub status_event : ℕ
  pub display_processed_event : ℕ
  pub ticker_event : ℕ
  pub usb_powered : ℕ
  pub io_flags : ℕ
  pub channel_keyboard : ℕ
  pub channel_spi : ℕ
  pub io_reset_after_replied : ℕ
  pub exception_io_reset : ℕ
  pub invalid_parameter : ℕ
  pub u4be : List ℕ → ℕ → ℕ

pub data Event : Type 0 where
  ux_button_push_event ux_displayed_event ux_ticker_event ux_default_event : Event

pub data SpiCall : Type 0 where
  spi_send : List ℕ → SpiCall
  halt : SpiCall
  spi_recv : SpiCall

module _ (sdk : Numbers) where
  -- The event that is handled, and whether a general status follows, since none was sent.
  unfoldable pub io_event : (usb_hid status_sent : Bool) → List ℕ → Call (Event × Bool)
  io_event usb_hid status_sent buffer =
      let tag = get_or buffer 0 0 in
      let general = not status_sent in
      if tag == sdk.button_push_event
      then returns (ux_button_push_event, general)
      else if tag == sdk.status_event
      then (if usb_hid && bit_and (sdk.u4be buffer 3) sdk.usb_powered == 0
          then throws sdk.exception_io_reset
          else returns (ux_displayed_event, general))
      else if tag == sdk.display_processed_event
      then returns (ux_displayed_event, general)
      else if tag == sdk.ticker_event
      then returns (ux_ticker_event, general)
      else returns (ux_default_event, general)

  -- The calls in order, and the returned length; `received` is what `io_seproxyhal_spi_recv` returns.
  -- `halt` never returns.
  unfoldable pub io_exchange_al : ℕ → ℕ → List ℕ → ℕ → Call (List SpiCall × ℕ)
  io_exchange_al channel tx_len apdu_buffer received =
      let kind = bit_and channel (255 - sdk.io_flags) in
      if kind == sdk.channel_keyboard
      then returns ([], 0)
      else if kind == sdk.channel_spi
      then (if not (tx_len == 0)
          then returns (
            spi_send (take tx_len apdu_buffer)
                ∷ (if bit_and channel sdk.io_reset_after_replied == 0 then [] else halt ∷ []),
            0,
          )
          else returns (spi_recv ∷ [], received))
      else throws sdk.invalid_parameter

  -- An event throws nothing but a reset, and only where the bytes are a status event while the host is
  -- reached over USB.
  pub record Unplugged (usb_hid : Bool) (buffer : List ℕ) (e : ℕ) : Type 0 where
    pub is_reset : e ≡ sdk.exception_io_reset
    pub status : get_or buffer 0 0 ≡ sdk.status_event
    pub over_usb : usb_hid ≡ true

  io_event-throws :
      (usb_hid status_sent : Bool) (buffer : List ℕ) (e : ℕ)
      → io_event usb_hid status_sent buffer ≡ throws e
      → Unplugged usb_hid buffer e
  unfolding io_event
  io_event-throws usb_hid status_sent buffer e thrown = grind arith
