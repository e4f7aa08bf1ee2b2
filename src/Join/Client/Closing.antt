-- ===== src/Join/Client/Closing.antt =====
-- host/src/fpga_client.cpp: the RESET behind a session whose end the client infers.

use fpga_postgresql_hash_joi.Base.{ℕ, ◌≡◌, List, ◌++◌, All}
use fpga_postgresql_hash_joi.Types.{reset}
use fpga_postgresql_hash_joi.Host.Transport.{Transport, ok}
use fpga_postgresql_hash_joi.Host.Outcome.{OnOk, Always-OnOk, OnOk-both, OnOk-self}
use fpga_postgresql_hash_joi.Host.Client.{ClientConfig, FpgaClient, send_counted}
use fpga_postgresql_hash_joi.Host.Client.Session.{reset_frame, await_reset}
use fpga_postgresql_hash_joi.Join.Output.{BoardFrame}
use fpga_postgresql_hash_joi.Join.Sends.{send_counted-sent}
use fpga_postgresql_hash_joi.Join.Heard.{IsHeard}
use fpga_postgresql_hash_joi.Join.Heard.Rounds.{Waits, send_counted-Waits}
use fpga_postgresql_hash_joi.Join.Heard.Passes.{ReadsOn}
use fpga_postgresql_hash_joi.Join.Client.{Link}
use fpga_postgresql_hash_joi.Join.Client.Finish.{await_reset-Silent, await_reset-ReadsOn, Silent}

module _ {T : Type 0} {tr : Transport T} (l : Link tr) where
  -- The RESET is sent, and the frames still wait.
  abbrev pub Told : List BoardFrame → FpgaClient T → FpgaClient T → Type 0
  Told fs c c' =
      (send_counted tr reset_frame reset c ≡ ok tt c')
      × (Waits l.hears fs c'
          × ((l.records.sent c'.transport ≡ l.records.sent c.transport ++ reset_frame)
              × (c'.cleanup_enabled ≡ c.cleanup_enabled)))

  pub send_counted-Told :
      (fs : List BoardFrame) (c : FpgaClient T)
      → Waits l.hears fs c
      → OnOk (send_counted tr reset_frame reset c) (λ _ c'. Told fs c c')
  send_counted-Told fs c k =
      let told = send_counted tr reset_frame reset c in
      OnOk-both told _ _ (OnOk-self told) (
        OnOk-both told _ _ (send_counted-Waits l.hears reset_frame reset fs c k)
          (send_counted-sent l.records 0 reset_frame reset c))

  -- The answer to it is awaited: nothing is sent, and some of the frames are read.
  abbrev pub Awaited : ClientConfig → ℕ → List BoardFrame → FpgaClient T → FpgaClient T → Type 0
  Awaited cfg waiting fs c c' =
      (await_reset tr cfg waiting 8 c ≡ ok tt c')
      × (ReadsOn l.hears fs c' × Silent l cfg waiting c c')

  pub await_reset-Awaited :
      (cfg : ClientConfig) (waiting : ℕ) (fs : List BoardFrame) (c : FpgaClient T)
      → All IsHeard fs
      → Waits l.hears fs c
      → OnOk (await_reset tr cfg waiting 8 c) (λ _ c'. Awaited cfg waiting fs c c')
  await_reset-Awaited cfg waiting fs c heard k =
      let awaited = await_reset tr cfg waiting 8 c in
      OnOk-both awaited _ _ (OnOk-self awaited) (
        OnOk-both awaited _ _
          (Always-OnOk awaited _ (await_reset-ReadsOn l cfg waiting 8 fs c heard k))
          (Always-OnOk awaited _ (await_reset-Silent l cfg waiting 8 c)))
