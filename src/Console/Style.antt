-- ===== src/Console/Style.antt =====
-- `STYLE` of crates/admin-console/src/app.rs
use opengroupware.Prelude.{String}
use opengroupware.Prelude.Decimal.{◌⊕◌}

unfoldable pub style : String
style =
    "\n" ⊕ "* { box-sizing: border-box; }\n"
    ⊕ "body { margin:0; font-family:-apple-system,BlinkMacSystemFont,'Segoe UI',Roboto,Helvetica,Arial,sans-serif; color:#1c1c1c; background:#f7f7f5; }\n"
    ⊕ "a { color:#185fa5; text-decoration:none; }\n" ⊕ "a:hover { text-decoration:underline; }\n"
    ⊕ ".nav { display:flex; align-items:center; gap:20px; padding:12px 24px; background:#fff; border-bottom:1px solid #e6e6e2; }\n"
    ⊕ ".nav .brand { font-weight:600; }\n"
    ⊕ ".wrap { max-width:900px; margin:24px auto; padding:0 24px; }\n"
    ⊕ "h1 { font-size:22px; font-weight:600; margin:0 0 16px; }\n"
    ⊕ "h2 { font-size:15px; font-weight:600; margin:22px 0 8px; color:#555; }\n"
    ⊕ ".card { background:#fff; border:1px solid #e6e6e2; border-radius:12px; overflow:hidden; }\n"
    ⊕ "table { width:100%; border-collapse:collapse; font-size:14px; }\n"
    ⊕ "th { text-align:left; font-weight:600; font-size:12px; color:#666; padding:10px 14px; }\n"
    ⊕ "td { padding:10px 14px; border-top:1px solid #efefeb; }\n"
    ⊕ ".mono { font-family:ui-monospace,SFMono-Regular,Menlo,monospace; }\n"
    ⊕ ".muted { color:#666; }\n" ⊕ ".right { text-align:right; }\n"
    ⊕ ".badge { display:inline-block; font-size:12px; padding:2px 9px; border-radius:20px; background:#eee; color:#444; }\n"
    ⊕ ".badge.ok { background:#e1f5ee; color:#0f6e56; }\n"
    ⊕ ".badge.warn { background:#faeeda; color:#854f0b; }\n"
    ⊕ ".headrow { display:flex; align-items:center; gap:12px; margin:4px 0 8px; }\n"
    ⊕ ".avatar { width:40px; height:40px; border-radius:8px; background:#e6f1fb; color:#185fa5; display:flex; align-items:center; justify-content:center; font-weight:600; }\n"
    ⊕ ".cards3 { display:grid; grid-template-columns:repeat(3,1fr); gap:10px; }\n"
    ⊕ ".metric { background:#f1efe8; border-radius:8px; padding:10px 12px; }\n"
    ⊕ ".metric .k { font-size:12px; color:#666; }\n"
    ⊕ ".metric .v { font-size:20px; font-weight:600; }\n"
    ⊕ ".err { background:#fcebeb; color:#a32d2d; border:1px solid #f09595; padding:12px 14px; border-radius:8px; }\n"
    ⊕ ".empty { padding:16px; color:#666; }\n"
