-- ===== src/WebGui/Texts.antt =====
-- The texts that src/iw_web_gui.c writes.
use insta_works.Base.{ℕ, List, ◌++◌, codes}

abbrev pub style_sheet : List ℕ
style_sheet =
    codes "body {\n"
    ++ codes "  background-color: #E8E8E8;\n"
    ++ codes "  font-family: Arial, sans-serif;\n"
    ++ codes "}\n"
    ++ codes "#menu {\n"
    ++ codes "  min-width: 700px;\n"
    ++ codes "  height: 70px;\n"
    ++ codes "  line-height: 70px;\n"
    ++ codes "  font-size: 36px;\n"
    ++ codes "  font-family: Arial, sans-serif;\n"
    ++ codes "  font-weight: bold;\n"
    ++ codes "  text-align: center;\n"
    ++ codes "  background-color: #5C5C5C;\n"
    ++ codes "  border-radius: 8px;\n"
    ++ codes "}\n"
    ++ codes "#menu ul {\n"
    ++ codes "  height: auto;\n"
    ++ codes "  padding: 8px 0px;\n"
    ++ codes "  margin: 0px;\n"
    ++ codes "}\n"
    ++ codes "#menu li {\n"
    ++ codes "  display: inline;\n"
    ++ codes "  padding: 10px;\n"
    ++ codes "}\n"
    ++ codes "#menu a {\n"
    ++ codes "  text-decoration: none;\n"
    ++ codes "  color: #4FDE1F;\n"
    ++ codes "  padding: 8px 8px 8px 8px;\n"
    ++ codes "}\n"
    ++ codes "#menu a:hover {\n"
    ++ codes "  color: #57FF1F;\n"
    ++ codes "  background-color: #5C5C5C;\n"
    ++ codes "}\n"
    ++ codes ".data {\n"
    ++ codes "  border-collapse: collapse;\n"
    ++ codes "  width: 80%;\n"
    ++ codes "}\n"
    ++ codes ".data td, th {\n"
    ++ codes "  padding: 10px;\n"
    ++ codes "  border-bottom: solid 1px black;\n"
    ++ codes "}\n"
    ++ codes ".data tbody tr:nth-of-type(even) {\n"
    ++ codes "  background-color: rgba(0,0,0,.05);\n"
    ++ codes "}\n"
    ++ codes "\n"

abbrev pub about_opening : List ℕ
about_opening = codes "<p>The program '"

abbrev pub about_closing : List ℕ
about_closing =
    codes "' uses a debug framework called InstaWorks which\n"
    ++ codes "provides extensive debug support for this program.</p>\n"
    ++ codes "\n"

abbrev pub about_library : List ℕ
about_library =
    codes "<p>InstaWorks is a support library for adding a debug framework to programs or\n"
    ++ codes "daemons. A debug framework is usually not the first thing being considered\n"
    ++ codes "when creating a new program. When creating a new program, the first priority\n"
    ++ codes "is to quickly get a proof of concept working. This may be due to general\n"
    ++ codes "excitement of trying out something new, or because a dead-line is imposed\n"
    ++ codes "by the manager of the project. Once the proof of concept is done, the next\n"
    ++ codes "priority is usually to extend the functionality to a usable first version.\n"
    ++ codes "Again, dead-lines have to be met.</p>\n"
    ++ codes "\n"
    ++ codes "<p>Because of this, it isn't until after the first version has shipped\n"
    ++ codes "that the matter of debugging the program is considered. At this point it\n"
    ++ codes "may be hard to graft a debug framework onto the program in question. Also,\n"
    ++ codes "since there are always more features to add, there is never a good time to\n"
    ++ codes "take the time out of the schedule to add the debug facilities.</p>\n"
    ++ codes "\n"
    ++ codes "<p>Therefore, InstaWorks was created to provide an instant debug framework\n"
    ++ codes "support library that can be used when creating new programs. By simply\n"
    ++ codes "linking InstaWorks and use the provided API, a number of services are\n"
    ++ codes "provided that helps provide debug facilities to any new program with a\n"
    ++ codes "minimal amount of time needed. The time savings from not having to create\n"
    ++ codes "debug facilities can be spent on adding more features to the new program\n"
    ++ codes "instead.</p>\n"

abbrev pub head_opening : List ℕ
head_opening =
    codes "<!doctype html>\n" ++ codes "<html>\n" ++ codes "<head>\n" ++ codes "  <title>"

abbrev pub head_closing : List ℕ
head_closing =
    codes "</title>\n"
    ++ codes "  <link rel='stylesheet' href='style.css'>\n"
    ++ codes
        "  <link href='data:image/x-icon;base64,iVBORw0KGgoAAAANSUhEUgAAABAAAAAQEAYAAABPYyMiAAAABmJLR0T///////8JWPfcAAAACXBIWXMAAABIAAAASABGyWs+AAAAF0lEQVRIx2NgGAWjYBSMglEwCkbBSAcACBAAAeaR9cIAAAAASUVORK5CYII=' rel='icon' type='image/x-icon' />\n"
    ++ codes "</head>\n"
    ++ codes "\n"
