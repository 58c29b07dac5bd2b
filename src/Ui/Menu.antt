-- ===== src/Ui/Menu.antt =====
-- ui/menu.c: the menus. `ui_menu_main` also gives the SDK a stack entry where there is none, which only
-- the SDK sees.
use ledger_app_neo.Device.Context.{Device, Flow}

abbrev pub ui_menu_main : Device → Device
ui_menu_main d = record d { flow = Flow.menu_flow }

abbrev pub ui_menu_about : Device → Device
ui_menu_about d = record d { flow = Flow.about_flow }
