-- ===== src/Tests/Closing.antt =====
-- The start and the end of the program (wails-app.go) on concrete states.
use vilan_peer.Base.{◌≡◌, refl, true, some}
use vilan_peer.App.Life.{dom_ready, before_close, crashed}
use vilan_peer.App.Life.{before_close-dom_ready}
use vilan_peer.Tests.Services.{host, world}

before_close-dom_ready_example :
    before_close (some true) (dom_ready host world) ≡ (dom_ready host world, crashed)
before_close-dom_ready_example = before_close-dom_ready host world refl
