-- ===== src/App/Start/Boot.antt =====
-- From the boot of a device to the call of `setup`.
use pyrinas_zephyr.Common.{◌≡◌, refl, true, false, Option, none, some, List, is_error, arith}
use pyrinas_zephyr.Rtc.{Bus}
use pyrinas_zephyr.Cloud.Topics.{Slot}
use pyrinas_zephyr.Cloud.Client.{
  Config, pyrinas_cloud_connect, first_address, cloud_state_connected,
}
use pyrinas_zephyr.Cloud.Client.Connect.{connect_fresh}
use pyrinas_zephyr.App.Main.{App, Event, hear, run, cloud_state_callback}
use pyrinas_zephyr.App.Main.Watch.{AllSigned, StillWatched, run-IsWatched}
use pyrinas_zephyr.App.Start.{
  Build, Given, Outcome, waiting, modem_switch, suspend, leave, go_on, boot, registered,
  connect_asserted, Call, Switch, behind_modem, cloud_start, main_rest, main, outcome_of,
}

-- The device when `main` waits, with all that it has set up.
unfoldable pub up : Given → List Slot → App
unfolding boot
up g callbacks = record (boot callbacks) {
  cloud = record ((boot callbacks).cloud) {
    cloud_state = cloud_state_connected;
    broker = first_address g.size g.addresses none;
    has_ota_callback = true;
    has_state_callback = true;
  };
}

-- Without an error the connection is made, and the application is told.
heard_up :
    (g : Given) (callbacks : List Slot)
    → let (c, err, actions) =
        pyrinas_cloud_connect g.size g.addr_err g.addresses g.mqtt_err
          (registered (boot callbacks)).cloud in
      is_error err ≡ false
      → hear (record (registered (boot callbacks)) { cloud = c }) actions ≡ up g callbacks
unfolding hear cloud_state_callback registered boot up
heard_up g callbacks ok =
    rw
      (connect_fresh g.size g.addr_err g.addresses g.mqtt_err (registered (boot callbacks)).cloud
        refl refl ok)
      refl

connect_up :
    (g : Given) (callbacks : List Slot) (a : App)
    → (connect_asserted true g (registered (boot callbacks))).0 ≡ some a
    → a ≡ up g callbacks
unfolding connect_asserted
connect_up g callbacks a h = ground (arith, heard_up g callbacks)

behind_modem-waiting :
    {C : Type 0} (s : Switch) (rest : Outcome C × List Call) (a : App) (c : C)
    → (behind_modem s rest).0 ≡ waiting a c
    → rest.0 ≡ waiting a c
unfolding behind_modem
behind_modem-waiting suspend rest a c h = absurd (ground arith)
behind_modem-waiting leave rest a c h = absurd (ground arith)
behind_modem-waiting go_on rest a c h = h

outcome_of-waiting :
    {C : Type 0} (o : Option App) (a : App) (c c' : C) → outcome_of o c ≡ waiting a c' → o ≡ some a
outcome_of-waiting none a c c' h = absurd (ground arith)
outcome_of-waiting (some a') a c c' h = ground arith

cloud_start-up :
    (b : Build) (g : Given) (callbacks : List Slot) (a : App)
    → b.assert_enabled ≡ true
    → (cloud_start b g (boot callbacks)).0 ≡ some a
    → a ≡ up g callbacks
unfolding cloud_start
cloud_start-up b g callbacks a checks h = ground (arith, connect_up g callbacks a)

-- What a cloud build waits with.
module _ {C : Type 0} (B : Bus C) (b : Build) (g : Given) (a : App) (c : C) where
  main_of_cloud :
      b.cloud_enabled ≡ true
      → main B b g a c ≡ behind_modem (modem_switch g.modem) (main_rest B b g a c)
  unfolding main
  main_of_cloud cloud = rw cloud refl

  main_rest-waiting :
      (a' : App) (c' : C)
      → b.cloud_enabled ≡ true
      → (main_rest B b g a c).0 ≡ waiting a' c'
      → (cloud_start b g a).0 ≡ some a'
  unfolding main_rest
  main_rest-waiting a' c' cloud h = outcome_of-waiting _ a' _ c' (rw cloud at h)

  pub main-waiting :
      (a' : App) (c' : C)
      → b.cloud_enabled ≡ true
      → (main B b g a c).0 ≡ waiting a' c'
      → (cloud_start b g a).0 ≡ some a'
  main-waiting a' c' cloud h = main_rest-waiting a' c' cloud (
      behind_modem-waiting (modem_switch g.modem) (main_rest B b g a c) a' c'
        (rw (main_of_cloud cloud) at h))

pub main-up :
    {C : Type 0} (B : Bus C) (b : Build) (g : Given) (callbacks : List Slot) (c c' : C) (a : App)
    → b.cloud_enabled ≡ true
    → b.assert_enabled ≡ true
    → (main B b g (boot callbacks) c).0 ≡ waiting a c'
    → a ≡ up g callbacks
main-up B b g callbacks c c' a cloud checks h =
    cloud_start-up b g callbacks a checks (main-waiting B b g (boot callbacks) c a c' cloud h)

-- If `main` of a cloud build with assertions comes to wait for the cloud, the client is connected
-- and tells the application, so that after any steps of the client and the reconnect work that do not
-- fault, a device that is disconnected has its reconnect work submitted; neither the resolver nor
-- `mqtt_connect` returns EINPROGRESS without its sign.
pub main-IsWatched :
    {C : Type 0} (B : Bus C) (k : Config) (b : Build) (g : Given) (callbacks : List Slot) (c c' : C)
    (a : App) (es : List Event)
    → b.cloud_enabled ≡ true
    → b.assert_enabled ≡ true
    → (main B b g (boot callbacks) c).0 ≡ waiting a c'
    → AllSigned es
    → (a.cloud.cloud_state ≡ cloud_state_connected) × StillWatched (run k a es)
unfolding up boot
main-IsWatched B k b g callbacks c c' a es cloud checks h signed =
    let e = main-up B b g callbacks c c' a cloud checks h in
    rw e (refl, run-IsWatched k (up g callbacks) es signed (refl, λ down. absurd (ground arith)))

pub cloud_start_idle :
    (b : Build) (g : Given) (callbacks : List Slot) (a : App)
    → b.assert_enabled ≡ false
    → (cloud_start b g (boot callbacks)).0 ≡ some a
    → a ≡ registered (boot callbacks)
unfolding cloud_start connect_asserted
cloud_start_idle b g callbacks a checks h = ground arith
